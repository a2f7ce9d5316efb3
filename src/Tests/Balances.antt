-- ===== src/Tests/Balances.antt =====
-- The wallet's balance and coin queries at a small table.
use mathlib.Core.List.{Perm}
use simply_sats.Prelude.{◌≡◌, refl, some, List, [], ◌∷◌, ◌++◌, All}
use simply_sats.Coins.{sort_utxos_by_value, insert_by_value}
use simply_sats.Coins.Sorting.{IsAscending}
use simply_sats.Store.Defs.{UtxoRow}
use simply_sats.Store.Queries.{get_spendable_utxos}
use simply_sats.WalletSync.Queries.{
  get_balance_from_database, get_spendable_utxos_from_database, get_ordinals_from_database,
}
use simply_sats.WalletSync.Payable.{IsPayable, get_spendable_utxos_from_database-IsPayable}
use simply_sats.Tests.Data.{two_rows, row}

balance-two_rows : get_balance_from_database (some 1) (some 1) (some two_rows) (some 40) ≡ 1340
unfolding get_balance_from_database get_spendable_utxos
balance-two_rows = refl

-- Ascending, and without what a pending transaction pays.
coins-two_rows :
    (get_spendable_utxos_from_database 1 (some 1) (some two_rows) (some (50 ∷ []))
      ≡ row 2 12 300 ∷ row 1 11 1000 ∷ [])
    × (get_spendable_utxos_from_database 1 (some 1) (some two_rows) (some (12 ∷ []))
        ≡ row 1 11 1000 ∷ [])
    × (get_ordinals_from_database (some 1) (some two_rows) ≡ [])
unfolding get_spendable_utxos_from_database get_spendable_utxos get_ordinals_from_database
    sort_utxos_by_value insert_by_value
coins-two_rows = (refl, refl, refl)

-- The coin of transaction 12 is the rest.
get_spendable_utxos_from_database-IsPayable_example :
    (rest : List UtxoRow) × Perm
      (get_spendable_utxos_from_database 1 (some 1) (some two_rows) (some (12 ∷ [])) ++ rest)
      two_rows.rows
    × All
        (IsPayable 1 (some 1) (some (12 ∷ [])))
        (get_spendable_utxos_from_database 1 (some 1) (some two_rows) (some (12 ∷ [])))
    × All (λ u. ¬ IsPayable 1 (some 1) (some (12 ∷ [])) u) rest
    × IsAscending
        (λ u. u.satoshis)
        (get_spendable_utxos_from_database 1 (some 1) (some two_rows) (some (12 ∷ [])))
get_spendable_utxos_from_database-IsPayable_example =
    get_spendable_utxos_from_database-IsPayable 1 (some 1) (some (12 ∷ [])) two_rows
