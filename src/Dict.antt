-- ===== src/Dict.antt =====
-- A JavaScript `Map` with text keys, in insertion order. A key stands as a number.
use simply_sats.Prelude.{
  ℕ, ◌+◌, ◌≤◌, ◌≡◌, ◌≢◌, ◌∙◌, refl, Bool, Option, none, some, List, [], ◌∷◌, ◌==◌, if◌then◌else◌,
  length, arith, inl, inr, Bool-cases, subst, ==_iff, ==_refl, is_some, filter,
}

abbrev pub Dict {ℓ} : Type ℓ → Type ℓ
Dict V = List (ℕ × V)

module _ {ℓ} {V : Type ℓ} where
  -- `map.get(k)`
  abbrev pub lookup : ℕ → Dict V → Option V
  lookup k [] = none
  lookup k ((j, v) ∷ d) = if j == k then some v else lookup k d

  -- `map.has(k)`
  abbrev pub has : ℕ → Dict V → Bool
  has k d = is_some (lookup k d)

  -- `map.set(k, v)`: a key that is there keeps its place.
  abbrev pub insert : ℕ → V → Dict V → Dict V
  insert k v [] = (k, v) ∷ []
  insert k v ((j, w) ∷ d) = if j == k then (j, v) ∷ d else (j, w) ∷ insert k v d

  -- `map.delete(k)`
  abbrev pub erase : ℕ → Dict V → Dict V
  erase k [] = []
  erase k ((j, w) ∷ d) = if j == k then d else (j, w) ∷ erase k d

  -- Each key is there once.
  abbrev pub HasDistinctKeys : Dict V → Type ℓ
  HasDistinctKeys [] = Unit
  HasDistinctKeys ((j, w) ∷ d) = (lookup j d ≡ none) × HasDistinctKeys d

  pub lookup-insert :
      (k j : ℕ) (v : V) (d : Dict V)
      → lookup j (insert k v d) ≡ (if k == j then some v else lookup j d)
  lookup-insert k j v [] = ground arith
  lookup-insert k j v ((i, w) ∷ d) = ground (arith, lookup-insert k j v d)

  pub lookup-erase_ne : (k j : ℕ) (d : Dict V) → k ≢ j → lookup j (erase k d) ≡ lookup j d
  lookup-erase_ne k j [] ne = refl
  lookup-erase_ne k j ((i, w) ∷ d) ne = ground (arith, lookup-erase_ne k j d ne)

  pub insert-HasDistinctKeys :
      (k : ℕ) (v : V) (d : Dict V) → HasDistinctKeys d → HasDistinctKeys (insert k v d)
  insert-HasDistinctKeys k v [] h = (refl, tt)
  insert-HasDistinctKeys k v ((i, w) ∷ d) h =
      ground (arith, insert-HasDistinctKeys k v d h.1, lookup-insert k i v d)

  pub erase-HasDistinctKeys : (k : ℕ) (d : Dict V) → HasDistinctKeys d → HasDistinctKeys (erase k d)
  erase-HasDistinctKeys k [] h = tt
  erase-HasDistinctKeys k ((i, w) ∷ d) h = elim (Bool-cases (i == k)) [
    | inl e ↦ rw e h.1
    | inr e ↦ rw e (lookup-erase_ne k i d (ground (arith, e)) ∙ h.0, erase-HasDistinctKeys k d h.1)
  ]

  pub length-insert :
      (k : ℕ) (v : V) (d : Dict V)
      → length (insert k v d) ≡ (if has k d then length d else length d + 1)
  length-insert k v [] = omega arith
  length-insert k v ((i, w) ∷ d) = ground (arith, length-insert k v d)

  pub length-erase :
      (k : ℕ) (d : Dict V) → length (erase k d) + (if has k d then 1 else 0) ≡ length d
  length-erase k [] = refl
  length-erase k ((i, w) ∷ d) = ground (arith, length-erase k d)

  lookup-filter-none :
      (p : ℕ × V → Bool) (k : ℕ) (d : Dict V) → lookup k d ≡ none → lookup k (filter p d) ≡ none
  lookup-filter-none p k [] h = refl
  lookup-filter-none p k ((i, w) ∷ d) h = ground (arith, lookup-filter-none p k d)

  pub filter-HasDistinctKeys :
      (p : ℕ × V → Bool) (d : Dict V) → HasDistinctKeys d → HasDistinctKeys (filter p d)
  filter-HasDistinctKeys p [] h = tt
  filter-HasDistinctKeys p ((i, w) ∷ d) h =
      ground (arith, filter-HasDistinctKeys p d h.1, lookup-filter-none p i d)

  pub length-filter-le : (p : ℕ × V → Bool) (d : Dict V) → length (filter p d) ≤ length d
  length-filter-le p [] = omega arith
  length-filter-le p (e ∷ d) = ground (arith, length-filter-le p d)

  -- The value, if it passes with its key.
  abbrev pub kept : (ℕ × V → Bool) → ℕ → Option V → Option V
  kept p k none = none
  kept p k (some v) = if p (k, v) then some v else none

  pub lookup-filter :
      (p : ℕ × V → Bool) (k : ℕ) (d : Dict V)
      → HasDistinctKeys d
      → lookup k (filter p d) ≡ kept p k (lookup k d)
  lookup-filter p k [] h = refl
  lookup-filter p k ((i, w) ∷ d) h = elim (Bool-cases (i == k)) [
    | inl e ↦
        subst (λ j. lookup j (filter p ((i, w) ∷ d)) ≡ kept p j (lookup j ((i, w) ∷ d)))
          ((==_iff i k).0 e)
          (elim (Bool-cases (p (i, w))) [
            | inl q ↦ rw q (rw (==_refl i) (rw q refl))
            | inr q ↦ rw q (rw (==_refl i) (rw q (lookup-filter-none p i d h.0)))
          ])
    | inr e ↦ elim (Bool-cases (p (i, w))) [
      | inl q ↦ rw (q, e) (lookup-filter p k d h.1)
      | inr q ↦ rw (q, e) (lookup-filter p k d h.1)
    ]
  ]
