-- ===== src/Coins/Selecting.antt =====
-- What `selectCoins` promises: which coins it takes, and when they are enough.
use mathlib.Core.List.{Perm}
use mathlib.Core.List.Perm
use simply_sats.Prelude.{
  ℕ, ◌+◌, ◌≤◌, ◌<◌, ◌≡◌, refl, ◌≢◌, ◌↔◌, true, List, [], ◌∷◌, ◌++◌, arith, All, sum_by,
}
use simply_sats.Coins.{accumulate, select_sorted, sort_utxos_by_value, select_coins}
use simply_sats.Coins.Sorting.{sum_by-sort_utxos_by_value}

module _ {ℓ} {A : Type ℓ} (satoshis : A → ℕ) where
  accumulate-total :
      (target t : ℕ) (us : List A)
      → let (selected, total) = accumulate satoshis target t us in
        total ≡ t + sum_by satoshis selected
  unfolding accumulate
  accumulate-total target t [] = omega arith
  accumulate-total target t (u ∷ us) = ground (arith, accumulate-total target (t + satoshis u) us)

  accumulate-enough :
      (target t : ℕ) (us : List A)
      → (target ≤ (accumulate satoshis target t us).1) ↔ (target ≤ t + sum_by satoshis us)
  unfolding accumulate
  accumulate-enough target t [] = ground arith
  accumulate-enough target t (u ∷ us) = ground (arith, accumulate-enough target (t + satoshis u) us)

  -- The coins taken before the last one do not reach the target.
  abbrev pub NeedsLast : ℕ → List A → Type ℓ
  NeedsLast target xs =
      (init : List A) × (last : A) × (xs ≡ init ++ last ∷ []) × (sum_by satoshis init < target)

  -- Each coin of the first list is worth at most each coin of the second.
  abbrev pub AllBelow : List A → List A → Type 0
  AllBelow xs ys = All (λ x. All (λ y. satoshis x ≤ satoshis y) ys) xs

  -- For a non-empty offer, the selection is sufficient exactly when all the offered coins together
  -- reach the target amount plus the buffer.
  pub select_coins-sufficient :
      (us : List A) (target_amount buffer : ℕ)
      → us ≢ []
      → ((select_coins satoshis us target_amount buffer).sufficient ≡ true)
        ↔ (target_amount + buffer ≤ sum_by satoshis us)
  unfolding select_coins select_sorted
  select_coins-sufficient [] target_amount buffer ne = absurd (ne refl)
  select_coins-sufficient (u ∷ us) target_amount buffer ne = ground (
    arith,
    accumulate-enough (target_amount + buffer) 0 (sort_utxos_by_value satoshis (u ∷ us)),
    sum_by-sort_utxos_by_value satoshis (u ∷ us),
  )

  -- The reported total is the value of the selected coins.
  select_coins-total :
      (us : List A) (target_amount buffer : ℕ)
      → let r = select_coins satoshis us target_amount buffer in
        r.total ≡ sum_by satoshis r.selected
  unfolding select_coins select_sorted
  select_coins-total [] target_amount buffer = refl
  select_coins-total (u ∷ us) target_amount buffer =
      omega
        (arith, accumulate-total (target_amount + buffer) 0 (sort_utxos_by_value satoshis (u ∷ us)))

  -- A selection takes the smallest coins first, and stops as soon as they are enough.
  abbrev pub IsMinimal : ℕ → List A → List A → Type ℓ
  IsMinimal target us selected =
      ((rest : List A) × Perm (selected ++ rest) us × AllBelow selected rest)
      × NeedsLast target selected

  pub select_coins-enough :
      (us : List A) (target_amount buffer : ℕ)
      → (select_coins satoshis us target_amount buffer).sufficient ≡ true
      → target_amount + buffer ≤ sum_by satoshis us
  unfolding select_coins
  select_coins-enough [] target_amount buffer h = absurd (ground arith)
  select_coins-enough (u ∷ us) target_amount buffer h =
      (select_coins-sufficient (u ∷ us) target_amount buffer (λ e. cc)).0 h
