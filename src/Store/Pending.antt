-- ===== src/Store/Pending.antt =====
-- Pending spends: `markUtxosPendingSpend`, `confirmUtxosSpent`, `rollbackPendingSpend` and
-- `markUTXOSpent`. Each loop runs one UPDATE for each outpoint; `faults` says how many of them the
-- database carries out before one throws (`none`: it never throws). What was written stays written.
-- `now` is the clock, which one call reads as one value.
pub mod Rows
pub mod Marking
pub mod Settling
use simply_sats.Prelude.{
  ℕ, zero, suc, Bool, ◌&&◌, Option, none, some, List, [], ◌∷◌, Result, ok, err,
}
use simply_sats.Types.{Outpoint}
use simply_sats.Store.Defs.{
  UtxoRow, Store, DbError, query_failed, unspent, pending, spent, is_at, in_account, is_unspent,
  is_pending, update_where,
}

-- One statement for each outpoint, until one throws.
unfoldable pub execute_each :
    (Outpoint → UtxoRow → Bool)
    → (UtxoRow → UtxoRow)
    → Option ℕ
    → List Outpoint
    → List UtxoRow
    → Result (Unit {0}) DbError × List UtxoRow
execute_each p f faults [] rs = (ok tt, rs)
execute_each p f none (o ∷ os) rs = execute_each p f none os (update_where (p o) f rs)
execute_each p f (some zero) (o ∷ os) rs = (err query_failed, rs)
execute_each p f (some (suc n)) (o ∷ os) rs = execute_each p f (some n) os (update_where (p o) f rs)

abbrev pub with_rows :
    Store → Result (Unit {0}) DbError × List UtxoRow → Result (Unit {0}) DbError × Store
with_rows s (r, rs) = (r, record s { rows = rs })

abbrev pub pend : ℕ → ℕ → UtxoRow → UtxoRow
pend pending_txid now r = record r {
  spending_status = some pending;
  pending_spending_txid = some pending_txid;
  pending_since = some now;
}

abbrev pub can_pend : Outpoint → UtxoRow → Bool
can_pend o r = is_at o r && is_unspent r.spending_status

unfoldable pub mark_utxos_pending_spend :
    ℕ → Option ℕ → List Outpoint → ℕ → Store → Result (Unit {0}) DbError × Store
unfolding execute_each
mark_utxos_pending_spend now faults utxos pending_txid s =
    with_rows s (execute_each can_pend (pend pending_txid now) faults utxos s.rows)

abbrev pub settle : ℕ → ℕ → UtxoRow → UtxoRow
settle spending_txid now r = record r {
  spending_status = some spent;
  spent_at = some now;
  spent_txid = some spending_txid;
  pending_spending_txid = none;
  pending_since = none;
}

unfoldable pub confirm_utxos_spent :
    ℕ → Option ℕ → List Outpoint → ℕ → Store → Result (Unit {0}) DbError × Store
unfolding execute_each
confirm_utxos_spent now faults utxos spending_txid s =
    with_rows s (execute_each is_at (settle spending_txid now) faults utxos s.rows)

abbrev pub unpend : UtxoRow → UtxoRow
unpend r = record r {
  spending_status = some unspent;
  pending_spending_txid = none;
  pending_since = none;
}

abbrev pub can_unpend : Outpoint → UtxoRow → Bool
can_unpend o r = is_at o r && is_pending r.spending_status

unfoldable pub rollback_pending_spend :
    Option ℕ → List Outpoint → Store → Result (Unit {0}) DbError × Store
unfolding execute_each
rollback_pending_spend faults utxos s =
    with_rows s (execute_each can_unpend unpend faults utxos s.rows)

-- `markUTXOSpent` leaves the pending columns as they are.
unfoldable pub mark_utxo_spent : ℕ → Outpoint → ℕ → Option ℕ → Store → Store
mark_utxo_spent now o spent_by account s = record s {
  rows =
      update_where (λ r. is_at o r && in_account account r)
        (λ r. record r {
          spent_at = some now;
          spent_txid = some spent_by;
          spending_status = some spent;
        })
        s.rows;
}
