-- ===== src/Cache/Entries.antt =====
-- The class `RequestCache<T>`. `T` is a type without `undefined`; a key stands as a number, the empty
-- key as 0. `now` is the clock. The timer that calls `cleanup` is the environment's.
use simply_sats.Prelude.{
  ℕ, ◌+◌, Bool, true, false, ◌&&◌, not, Option, none, some, [], ◌∷◌, ltb, leb, ◌==◌, if◌then◌else◌,
  length, filter, or_else,
}
use simply_sats.Dict.{Dict, lookup, has, insert, erase}

pub record CacheEntry {ℓ} (V : Type ℓ) : Type ℓ where
  pub data_of : V
  pub timestamp : ℕ
  pub expires_at : ℕ

-- `config.defaultTTL`, `config.maxEntries` and the map.
pub record RequestCache {ℓ} (V : Type ℓ) : Type ℓ where
  pub default_ttl : ℕ
  pub max_entries : ℕ
  pub entries : Dict (CacheEntry V)

module _ {ℓ} {V : Type ℓ} where
  abbrev pub with_entries : RequestCache V → Dict (CacheEntry V) → RequestCache V
  with_entries c d = record c { entries = d }

  -- `Date.now() > entry.expiresAt`
  abbrev pub is_expired : ℕ → CacheEntry V → Bool
  is_expired now e = ltb e.expires_at now

  abbrev pub get_entry : ℕ → ℕ → Option (CacheEntry V) → RequestCache V → Option V × RequestCache V
  get_entry now key none c = (none, c)
  get_entry now key (some e) c =
      if is_expired now e then (none, with_entries c (erase key c.entries)) else (some e.data_of, c)

  unfoldable pub get : ℕ → ℕ → RequestCache V → Option V × RequestCache V
  get now key c = get_entry now key (lookup key c.entries) c

  -- The loop of `evictOldest`: the key and the time it ends with, from those it has.
  abbrev pub oldest : Option (ℕ × ℕ) → Dict (CacheEntry V) → Option (ℕ × ℕ)
  oldest best [] = best
  oldest none ((k, e) ∷ d) = oldest (some (k, e.timestamp)) d
  oldest (some (j, t)) ((k, e) ∷ d) =
      if ltb e.timestamp t then oldest (some (k, e.timestamp)) d else oldest (some (j, t)) d

  -- `if (oldestKey)`, which an empty key does not pass.
  abbrev pub evict : Option (ℕ × ℕ) → Dict (CacheEntry V) → Dict (CacheEntry V)
  evict none d = d
  evict (some (k, t)) d = if k == 0 then d else erase k d

  unfoldable pub evict_oldest : Dict (CacheEntry V) → Dict (CacheEntry V)
  evict_oldest d = evict (oldest none d) d

  unfoldable pub set : ℕ → ℕ → V → Option ℕ → RequestCache V → RequestCache V
  unfolding evict_oldest
  set now key v ttl c = with_entries c (
      insert key
        (record { data_of = v; timestamp = now; expires_at = now + or_else ttl c.default_ttl })
        (if leb c.max_entries (length c.entries) && not (has key c.entries)
          then evict_oldest c.entries
          else c.entries))

  -- `has`
  abbrev pub has_entry : ℕ → ℕ → Option (CacheEntry V) → RequestCache V → Bool × RequestCache V
  has_entry now key none c = (false, c)
  has_entry now key (some e) c =
      if is_expired now e then (false, with_entries c (erase key c.entries)) else (true, c)

  unfoldable pub has_live : ℕ → ℕ → RequestCache V → Bool × RequestCache V
  has_live now key c = has_entry now key (lookup key c.entries) c

  unfoldable pub delete : ℕ → RequestCache V → Bool × RequestCache V
  delete key c = (has key c.entries, with_entries c (erase key c.entries))

  unfoldable pub clear : RequestCache V → RequestCache V
  clear c = with_entries c []

  -- `later` is the clock after the fetch; `none` is a fetch that throws.
  abbrev pub after_get :
      ℕ
      → ℕ
      → (Unit {0} → Option V)
      → Option ℕ
      → Option V × RequestCache V
      → Option V × RequestCache V
  after_get later key fetch ttl (some v, c) = (some v, c)
  after_get later key fetch ttl (none, c) = elim (fetch tt) [
    | none ↦ (none, c)
    | some v ↦ (some v, set later key v ttl c)
  ]

  unfoldable pub get_or_fetch :
      ℕ → ℕ → ℕ → (Unit {0} → Option V) → Option ℕ → RequestCache V → Option V × RequestCache V
  unfolding get set
  get_or_fetch now later key fetch ttl c = after_get later key fetch ttl (get now key c)

  unfoldable pub cleanup : ℕ → RequestCache V → RequestCache V
  cleanup now c = with_entries c (filter (λ e. not (is_expired now e.1)) c.entries)
