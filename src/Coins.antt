-- ===== src/Coins.antt =====
-- Coin selection (src/domain/transaction/coinSelection.ts). `T extends UTXO` is a type `A` with the
-- field `satoshis : A → ℕ`; `Array.prototype.sort` with a numeric comparison is a stable sort.
pub mod Sorting
pub mod Selecting
use simply_sats.Prelude.{ℕ, ◌+◌, ◌-◌, ◌≡◌, Bool, false, List, [], ◌∷◌, leb, length, if◌then◌else◌}
use simply_sats.Types.{ExtendedUtxo}

abbrev pub default_coin_selection_buffer : ℕ
default_coin_selection_buffer = 100

pub record CoinSelectionResult {ℓ} (A : Type ℓ) : Type ℓ where
  pub selected : List A
  pub total : ℕ
  pub sufficient : Bool

module _ {ℓ} {A : Type ℓ} (satoshis : A → ℕ) where
  unfoldable pub insert_by_value : A → List A → List A
  insert_by_value u [] = u ∷ []
  insert_by_value u (v ∷ vs) =
      if leb (satoshis u) (satoshis v) then u ∷ v ∷ vs else v ∷ insert_by_value u vs

  unfoldable pub sort_utxos_by_value : List A → List A
  unfolding insert_by_value
  sort_utxos_by_value [] = []
  sort_utxos_by_value (u ∷ us) = insert_by_value u (sort_utxos_by_value us)

  -- The `for` loop: what it pushes, and `total` when it stops.
  unfoldable pub accumulate : ℕ → ℕ → List A → List A × ℕ
  accumulate target total [] = ([], total)
  accumulate target total (u ∷ us) =
      let rest = accumulate target (total + satoshis u) us in
      if leb target (total + satoshis u) then (u ∷ [], total + satoshis u) else (u ∷ rest.0, rest.1)

  -- The body behind the guard `utxos.length === 0`.
  unfoldable pub select_sorted : ℕ → List A → CoinSelectionResult A
  unfolding accumulate
  select_sorted target sorted =
      let (selected, total) = accumulate target 0 sorted in
      record { selected = selected; total = total; sufficient = leb target total }

  unfoldable pub select_coins : List A → ℕ → ℕ → CoinSelectionResult A
  unfolding sort_utxos_by_value select_sorted
  select_coins [] target_amount buffer = record { selected = []; total = 0; sufficient = false }
  select_coins (u ∷ us) target_amount buffer =
      select_sorted (target_amount + buffer) (sort_utxos_by_value (u ∷ us))

unfoldable pub select_coins_multi_key : List ExtendedUtxo → ℕ → ℕ → CoinSelectionResult ExtendedUtxo
unfolding select_coins
select_coins_multi_key utxos target_amount buffer =
    select_coins (λ u. u.satoshis) utxos target_amount buffer

-- `totalInput - sendAmount - fee >= dustThreshold`; with a threshold of zero the source accepts a
-- change of exactly zero and no negative one.
unfoldable pub needs_change_output : ℕ → ℕ → ℕ → ℕ → Bool
needs_change_output total_input send_amount fee dust_threshold =
    leb (send_amount + fee + dust_threshold) total_input
