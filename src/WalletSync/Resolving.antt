-- ===== src/WalletSync/Resolving.antt =====
-- `resolvePendingTransactions` of src/services/sync/orchestration.ts: pending transactions that the history
-- did not settle are looked up one by one. The API's replies and the clock are inputs.
use simply_sats.Prelude.{
  ℕ, ◌-◌, Bool, true, false, Option, none, some, or_else, List, [], ◌∷◌, ltb, leb, if◌then◌else◌,
}
use simply_sats.Store.Defs.{Store}
use simply_sats.Store.Upkeep.{delete_utxos_by_txid}
use simply_sats.Transactions.Defs.{TxRow, TxTables, confirmed, failed}
use simply_sats.Transactions.Writes.{update_transaction_status}
use simply_sats.Transactions.Queries.{get_pending_transactions}

-- `getTransactionDetailsSafe`: the details with their block height, if they have one; a 404; or another
-- failure, an exception included.
pub data Details : Type 0 where
  details : Option ℕ → Details
  not_found : Details
  unavailable : Details

abbrev pub stale_pending404_ms : ℕ
stale_pending404_ms = 1800000

-- What a reply means for a pending transaction.
pub data Verdict : Type 0 where
  mined : ℕ → Verdict
  phantom : Verdict
  open_still : Verdict

unfoldable pub judge : ℕ → Details → TxRow → Verdict
judge now (details none) tx = open_still
judge now (details (some height)) tx = if ltb 0 height then mined height else open_still
judge now not_found tx =
    if leb stale_pending404_ms (now - tx.created_at) then phantom else open_still
judge now unavailable tx = open_still

-- What is done about one transaction. A database that fails leaves it as it was: the status update is one
-- statement, and the two writes for a phantom are one database transaction.
unfoldable pub settle_verdict : ℕ → Option ℕ → ℕ → Verdict → Store × TxTables → Store × TxTables
unfolding update_transaction_status delete_utxos_by_txid
settle_verdict now account txid (mined height) (coins, s) =
    (coins, (update_transaction_status now none txid confirmed (some height) account s).1)
settle_verdict now account txid phantom (coins, s) = (
  (delete_utxos_by_txid txid (or_else account 1) coins).1,
  (update_transaction_status now none txid failed none account s).1,
)
settle_verdict now account txid open_still tables = tables

-- The loop over the transactions found first. `fails` tells for which txids the database fails.
unfoldable pub resolve_each :
    ℕ → (ℕ → Details) → (ℕ → Bool) → Option ℕ → List TxRow → Store × TxTables → Store × TxTables
unfolding judge settle_verdict
resolve_each now reply fails account [] tables = tables
resolve_each now reply fails account (tx ∷ txs) tables = resolve_each now reply fails account txs (
    if fails tx.txid
    then tables
    else settle_verdict now account tx.txid (judge now (reply tx.txid) tx) tables)

-- `query_fails`: the first query does.
unfoldable pub resolve_pending_transactions :
    ℕ → (ℕ → Details) → Bool → (ℕ → Bool) → Option ℕ → Store × TxTables → Store × TxTables
unfolding resolve_each get_pending_transactions
resolve_pending_transactions now reply true fails account tables = tables
resolve_pending_transactions now reply false fails account tables =
    resolve_each now reply fails account (get_pending_transactions account tables.1) tables
