-- ===== src/Cache/Eviction.antt =====
-- The cache stays within its bound, and gives up its oldest entry only.
use simply_sats.Prelude.{
  ℕ, ◌+◌, ◌≤◌, ◌<◌, ◌≡◌, ◌≢◌, refl, sym, ◌∙◌, inl, inr, ◌⊎◌, true, not, ◌&&◌, ◌||◌, Option, none,
  some, [], ◌∷◌, arith, ltb, leb, ◌==◌, if◌then◌else◌, length, All, Bool-cases, ap, ==_iff, ==_ne,
  ==_refl, or_else,
}
use simply_sats.Dict.{
  Dict, lookup, has, lookup-insert, lookup-erase_ne, length-insert, length-erase,
}
use simply_sats.Cache.Entries.{CacheEntry, RequestCache, get, oldest, evict, evict_oldest, set}

module _ {ℓ} {V : Type ℓ} where
  -- The empty key is no key of the map.
  abbrev pub HasKeys : Dict (CacheEntry V) → Type 0
  HasKeys d = All (λ e. e.0 ≢ 0) d

  -- No entry of the map is older than the time.
  abbrev pub IsFloor : ℕ → Dict (CacheEntry V) → Type 0
  IsFloor t d = All (λ e. t ≤ e.1.timestamp) d

  abbrev Best : ℕ → ℕ → Dict (CacheEntry V) → Option (ℕ × ℕ) → Type 0
  Best j t₀ d o =
      (k : ℕ) × (t : ℕ) × (o ≡ some (k, t))
      × (t ≤ t₀)
      × IsFloor t d
      × (((j == k) || has k d) ≡ true)

  oldest-Best : (j t₀ : ℕ) (d : Dict (CacheEntry V)) → Best j t₀ d (oldest (some (j, t₀)) d)
  oldest-Best j t₀ [] = (j, t₀, refl, omega arith, tt, ground arith)
  oldest-Best j t₀ ((i, e) ∷ d) = elim (Bool-cases (ltb e.timestamp t₀)) [
    | inl p ↦
        let (k, t, q, le, all, h) = oldest-Best i e.timestamp d in
        rw p (k, t, q, ground (arith, p), (omega arith, all), ground (arith, h))
    | inr p ↦
        let (k, t, q, le, all, h) = oldest-Best j t₀ d in
        rw p (k, t, q, omega arith, (ground (arith, p), all), ground (arith, h))
  ]

  -- In a map that is not empty the loop ends with a key of the map and the least timestamp.
  abbrev pub HasLeastTime : Dict (CacheEntry V) → ℕ → ℕ → Type 0
  HasLeastTime d k t = (oldest none d ≡ some (k, t)) × (has k d ≡ true) × IsFloor t d

  oldest-HasLeastTime :
      (d : Dict (CacheEntry V)) → 0 < length d → (k : ℕ) × (t : ℕ) × HasLeastTime d k t
  oldest-HasLeastTime [] ne = absurd (omega arith)
  oldest-HasLeastTime ((i, e) ∷ d) ne =
      let (k, t, q, le, all, h) = oldest-Best i e.timestamp d in
      (k, t, (q, ground (arith, h), (le, all)))

  has-HasKeys : (k : ℕ) (d : Dict (CacheEntry V)) → HasKeys d → has k d ≡ true → k ≢ 0
  has-HasKeys k [] h e = ground (arith, e)
  has-HasKeys k ((i, x) ∷ d) h e = ground (arith, h.0, e, has-HasKeys k d h.1)

  length-evict_oldest :
      (d : Dict (CacheEntry V)) → 0 < length d → HasKeys d → length (evict_oldest d) + 1 ≡ length d
  unfolding evict_oldest
  length-evict_oldest d ne keys =
      let (k, t, (q, h, all)) = oldest-HasLeastTime d ne in
      rw q (ground (arith, length-erase k d, h, has-HasKeys k d keys h))

  abbrev set_entry : ℕ → V → Option ℕ → RequestCache V → CacheEntry V
  set_entry now v ttl c = record {
    data_of = v;
    timestamp = now;
    expires_at = now + or_else ttl c.default_ttl;
  }

  -- A cache with room for an entry at all, whose keys are not empty, never outgrows its bound.
  pub set-length :
      (now key : ℕ) (v : V) (ttl : Option ℕ) (c : RequestCache V)
      → 0 < c.max_entries
      → HasKeys c.entries
      → length c.entries ≤ c.max_entries
      → length (set now key v ttl c).entries ≤ c.max_entries
  unfolding set
  set-length now key v ttl c pos keys le =
      elim (Bool-cases (leb c.max_entries (length c.entries) && not (has key c.entries))) [
        | inl e ↦ rw e (
            ground (
              arith,
              length-insert key (set_entry now v ttl c) (evict_oldest c.entries),
              length-evict_oldest c.entries (ground (arith, e)) keys,
            ))
        | inr e ↦ rw e (ground (arith, e, length-insert key (set_entry now v ttl c) c.entries))
      ]

  -- The map that the new entry is written into.
  abbrev room_for : ℕ → RequestCache V → Dict (CacheEntry V)
  room_for key c =
      if leb c.max_entries (length c.entries) && not (has key c.entries)
      then evict_oldest c.entries
      else c.entries

  abbrev Keeps : ℕ → Dict (CacheEntry V) → Dict (CacheEntry V) → Type ℓ
  Keeps j d d' =
      (lookup j d' ≡ lookup j d) ⊎ ((t : ℕ) × (oldest none d ≡ some (j, t)) × IsFloor t d)

  lookup-evict :
      (j k t : ℕ) (d : Dict (CacheEntry V)) → k ≢ j → lookup j (evict (some (k, t)) d) ≡ lookup j d
  lookup-evict j k t d ne = elim (Bool-cases (k == 0)) [
    | inl e ↦ rw e refl
    | inr e ↦ rw e (lookup-erase_ne k j d ne)
  ]

  evict_oldest-Keeps : (j : ℕ) (d : Dict (CacheEntry V)) → Keeps j d (evict_oldest d)
  unfolding evict_oldest
  evict_oldest-Keeps j [] = inl refl
  evict_oldest-Keeps j (x ∷ d) =
      let (k, t, (q, h, all)) = oldest-HasLeastTime (x ∷ d) (omega arith) in
      elim (Bool-cases (k == j)) [
        | inl e ↦ inr (t, q ∙ ap (λ i. some (i, t)) ((==_iff k j).0 e), all)
        | inr e ↦ inl (
            ap (λ o. lookup j (evict o (x ∷ d))) q ∙ lookup-evict j k t (x ∷ d) (ground (arith, e)))
      ]

  room_for-Keeps : (key j : ℕ) (c : RequestCache V) → Keeps j c.entries (room_for key c)
  room_for-Keeps key j c =
      elim (Bool-cases (leb c.max_entries (length c.entries) && not (has key c.entries))) [
        | inl e ↦ rw e (evict_oldest-Keeps j c.entries)
        | inr e ↦ rw e (inl refl)
      ]

  -- What was set is read back until its time to live is over, and not after that.
  pub get-set :
      (now later key : ℕ) (v : V) (ttl : Option ℕ) (c : RequestCache V)
      → (get later key (set now key v ttl c)).0
        ≡ (if ltb (now + or_else ttl c.default_ttl) later then none else some v)
  unfolding get set
  get-set now later key v ttl c =
      rw (lookup-insert key key (set_entry now v ttl c) (room_for key c))
        (rw (==_refl key) (ground arith))

  -- Another key keeps its entry, unless it is the one with which the search for the oldest entry
  -- ends, and then no entry has an earlier timestamp.
  set-keeps :
      (now key j : ℕ) (v : V) (ttl : Option ℕ) (c : RequestCache V)
      → j ≢ key
      → (lookup j (set now key v ttl c).entries ≡ lookup j c.entries)
        ⊎ ((t : ℕ) × (oldest none c.entries ≡ some (j, t)) × IsFloor t c.entries)
  unfolding set evict_oldest
  set-keeps now key j v ttl c ne =
      rw (lookup-insert key j (set_entry now v ttl c) (room_for key c))
        (rw (==_ne key j (λ e. ne (sym e))) (room_for-Keeps key j c))
