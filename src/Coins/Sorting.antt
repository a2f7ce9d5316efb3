-- ===== src/Coins/Sorting.antt =====
-- `sortUtxosByValue` permutes its input into ascending order.
use mathlib.Core.List.{Perm}
use mathlib.Core.List.Perm
use simply_sats.Prelude.{
  ℕ, ◌+◌, ◌≤◌, ◌≡◌, refl, inl, inr, List, [], ◌∷◌, arith, leb, leb_iff, All, sum_by, Bool-cases,
}
use simply_sats.Coins.{insert_by_value, sort_utxos_by_value}

module _ {ℓ} {A : Type ℓ} (satoshis : A → ℕ) where
  -- Every entry is at most those behind it.
  abbrev pub IsAscending : List A → Type 0
  IsAscending [] = Unit
  IsAscending (u ∷ us) = All (λ v. satoshis u ≤ satoshis v) us × IsAscending us

  pub All-weaken :
      (u v : A) (us : List A)
      → satoshis u ≤ satoshis v
      → All (λ w. satoshis v ≤ satoshis w) us
      → All (λ w. satoshis u ≤ satoshis w) us
  All-weaken u v [] h a = tt
  All-weaken u v (w ∷ us) h a = (omega arith, All-weaken u v us h a.1)

  All-insert_by_value :
      (m : ℕ) (u : A) (us : List A)
      → m ≤ satoshis u
      → All (λ w. m ≤ satoshis w) us
      → All (λ w. m ≤ satoshis w) (insert_by_value satoshis u us)
  unfolding insert_by_value
  All-insert_by_value m u [] h a = (h, tt)
  All-insert_by_value m u (v ∷ vs) h a = elim (Bool-cases (leb (satoshis u) (satoshis v))) [
    | inl e ↦ rw e (h, a)
    | inr e ↦ rw e (a.0, All-insert_by_value m u vs h a.1)
  ]

  insert_by_value-All {κ} :
      (P : A → Type κ) (u : A) (us : List A)
      → P u
      → All P us
      → All P (insert_by_value satoshis u us)
  unfolding insert_by_value
  insert_by_value-All P u [] h a = (h, tt)
  insert_by_value-All P u (v ∷ vs) h a = elim (Bool-cases (leb (satoshis u) (satoshis v))) [
    | inl e ↦ rw e (h, a)
    | inr e ↦ rw e (a.0, insert_by_value-All P u vs h a.1)
  ]

  pub sort_utxos_by_value-All {κ} :
      (P : A → Type κ) (us : List A) → All P us → All P (sort_utxos_by_value satoshis us)
  unfolding sort_utxos_by_value
  sort_utxos_by_value-All P [] h = tt
  sort_utxos_by_value-All P (u ∷ us) h =
      insert_by_value-All P u _ h.0 (sort_utxos_by_value-All P us h.1)

  insert_by_value-IsAscending :
      (u : A) (us : List A) → IsAscending us → IsAscending (insert_by_value satoshis u us)
  unfolding insert_by_value
  insert_by_value-IsAscending u [] h = (tt, tt)
  insert_by_value-IsAscending u (v ∷ vs) h = elim (Bool-cases (leb (satoshis u) (satoshis v))) [
    | inl e ↦
        let le : satoshis u ≤ satoshis v = (leb_iff _ _).0 e in
        rw e ((le, All-weaken u v vs le h.0), h)
    | inr e ↦ rw e (
      All-insert_by_value (satoshis v) u vs (ground arith) h.0,
      insert_by_value-IsAscending u vs h.1,
    )
  ]

  pub sort_utxos_by_value-IsAscending :
      (us : List A) → IsAscending (sort_utxos_by_value satoshis us)
  unfolding sort_utxos_by_value
  sort_utxos_by_value-IsAscending [] = tt
  sort_utxos_by_value-IsAscending (u ∷ us) =
      insert_by_value-IsAscending u _ (sort_utxos_by_value-IsAscending us)

  insert_by_value-perm : (u : A) (us : List A) → Perm (insert_by_value satoshis u us) (u ∷ us)
  unfolding insert_by_value
  insert_by_value-perm u [] = Perm.refl _
  insert_by_value-perm u (v ∷ vs) = elim (Bool-cases (leb (satoshis u) (satoshis v))) [
    | inl e ↦ rw e (Perm.refl _)
    | inr e ↦ rw e (Perm.trans (Perm.cons v (insert_by_value-perm u vs)) (Perm.swap u v vs))
  ]

  pub sort_utxos_by_value-perm : (us : List A) → Perm (sort_utxos_by_value satoshis us) us
  unfolding sort_utxos_by_value
  sort_utxos_by_value-perm [] = Perm.refl _
  sort_utxos_by_value-perm (u ∷ us) =
      Perm.trans (insert_by_value-perm u _) (Perm.cons u (sort_utxos_by_value-perm us))

  sum_by-insert_by_value :
      (u : A) (us : List A)
      → sum_by satoshis (insert_by_value satoshis u us) ≡ satoshis u + sum_by satoshis us
  unfolding insert_by_value
  sum_by-insert_by_value u [] = refl
  sum_by-insert_by_value u (v ∷ vs) = ground (arith, sum_by-insert_by_value u vs)

  pub sum_by-sort_utxos_by_value :
      (us : List A) → sum_by satoshis (sort_utxos_by_value satoshis us) ≡ sum_by satoshis us
  unfolding sort_utxos_by_value
  sum_by-sort_utxos_by_value [] = refl
  sum_by-sort_utxos_by_value (u ∷ us) = omega (
    arith,
    sum_by-insert_by_value u (sort_utxos_by_value satoshis us),
    sum_by-sort_utxos_by_value us,
  )
