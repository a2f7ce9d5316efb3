-- ===== src/Store/Queries.antt =====
-- The queries of the repository: `getUTXOsByBasket`, `getSpendableUTXOs`,
-- `getSpendableUTXOsByAddress`, `getPendingUtxos`, `getUtxoByOutpoint`, `getBalanceFromDB` and
-- `getAllUTXOs`. They return the rows that the source maps field by field.
use simply_sats.Prelude.{
  ℕ, ◌-◌, Bool, true, false, ◌&&◌, ◌||◌, Option, none, some, List, [], ◌∷◌, filter, ltb, ◌==◌,
  sum_by,
}
use simply_sats.Types.{Outpoint}
use simply_sats.Store.Defs.{UtxoRow, Store, is_at, eq_column, in_account, is_pending, is_spendable}

unfoldable pub get_utxos_by_basket : ℕ → Bool → Option ℕ → Store → List UtxoRow
get_utxos_by_basket basket true account s =
    filter (λ r. r.basket == basket && is_spendable r && in_account account r) s.rows
get_utxos_by_basket basket false account s =
    filter (λ r. r.basket == basket && in_account account r) s.rows

unfoldable pub get_spendable_utxos : Option ℕ → Store → List UtxoRow
get_spendable_utxos account s = filter (λ r. is_spendable r && in_account account r) s.rows

unfoldable pub get_spendable_utxos_by_address : ℕ → Store → List UtxoRow
get_spendable_utxos_by_address address s =
    filter (λ r. is_spendable r && eq_column r.address address) s.rows

-- `pending_since < $1`
abbrev pub is_since_before : Option ℕ → ℕ → Bool
is_since_before none cutoff = false
is_since_before (some t) cutoff = ltb t cutoff

unfoldable pub get_pending_utxos : ℕ → ℕ → Store → List UtxoRow
get_pending_utxos now timeout_ms s =
    filter (λ r. is_pending r.spending_status && is_since_before r.pending_since (now - timeout_ms))
      s.rows

abbrev pub first : List UtxoRow → Option UtxoRow
first [] = none
first (r ∷ rs) = some r

unfoldable pub get_utxo_by_outpoint : Outpoint → Option ℕ → Store → Option UtxoRow
get_utxo_by_outpoint o account s = first (filter (λ r. is_at o r && in_account account r) s.rows)

-- `if (basket)`: the empty name sets no condition either.
abbrev pub if_named : Option ℕ → UtxoRow → Bool
if_named none r = true
if_named (some b) r = b == 0 || r.basket == b

unfoldable pub get_balance_from_db : Option ℕ → Option ℕ → Store → ℕ
get_balance_from_db basket account s =
    sum_by (λ r. r.satoshis)
      (filter (λ r. is_spendable r && if_named basket r && in_account account r) s.rows)

unfoldable pub get_all_utxos : Option ℕ → Store → List UtxoRow
get_all_utxos account s = filter (in_account account) s.rows
