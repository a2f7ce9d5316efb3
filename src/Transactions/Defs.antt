-- ===== src/Transactions/Defs.antt =====
-- Rows of the tables `transactions` and `transaction_labels` (src-tauri/migrations/fresh_install_schema.sql),
-- and the statements that the repository runs on them. A text stands as a number, the empty text as 0.
use simply_sats.Prelude.{
  ℕ, zero, suc, Bool, true, false, not, ◌&&◌, Option, none, some, List, [], ◌∷◌, ◌++◌, map, filter,
  any, ◌==◌, if◌then◌else◌, Result, ok, err,
}
use simply_sats.Store.Defs.{DbError, query_failed}

pub data TxStatus : Type 0 where
  pending confirmed failed : TxStatus

abbrev pub is_pending : TxStatus → Bool
is_pending pending = true
is_pending confirmed = false
is_pending failed = false

-- The net satoshis of a transaction: `sent n` is -(n + 1).
pub data Amount : Type 0 where
  received sent : ℕ → Amount

pub record TxRow : Type 0 where
  pub id : ℕ
  pub txid : ℕ
  pub raw_tx : Option ℕ
  pub description : Option ℕ
  pub created_at : ℕ
  pub confirmed_at : Option ℕ
  pub block_height : Option ℕ
  pub status : TxStatus
  pub amount : Option Amount
  pub account_id : ℕ

pub record TxLabel : Type 0 where
  pub txid : ℕ
  pub label : ℕ
  pub account_id : ℕ

pub record TxTables : Type 0 where
  pub rows : List TxRow
  pub next_id : ℕ
  pub labels : List TxLabel

-- `Omit<Transaction, 'id'>`
pub record NewTx : Type 0 where
  pub txid : ℕ
  pub raw_tx : Option ℕ
  pub description : Option ℕ
  pub created_at : ℕ
  pub confirmed_at : Option ℕ
  pub block_height : Option ℕ
  pub status : TxStatus
  pub labels : List ℕ
  pub amount : Option Amount

-- `x || null`
abbrev pub or_null : Option ℕ → Option ℕ
or_null none = none
or_null (some x) = if x == 0 then none else some x

-- `txid = $1 AND account_id = $2`
abbrev pub is_tx : ℕ → ℕ → TxRow → Bool
is_tx txid account r = r.txid == txid && r.account_id == account

abbrev pub is_label : ℕ → ℕ → ℕ → TxLabel → Bool
is_label txid label account l = (l.txid == txid && l.label == label) && l.account_id == account

abbrev pub Statement : Type 0
Statement = TxTables → TxTables

-- The statements of a call, until one throws; `faults` says how many the database carries out before
-- (`none`: it never throws). What was written stays written.
unfoldable pub run : Option ℕ → List Statement → TxTables → Result (Unit {0}) DbError × TxTables
run faults [] s = (ok tt, s)
run none (f ∷ fs) s = run none fs (f s)
run (some zero) (f ∷ fs) s = (err query_failed, s)
run (some (suc n)) (f ∷ fs) s = run (some n) fs (f s)

abbrev pub update_rows : (TxRow → Bool) → (TxRow → TxRow) → Statement
update_rows p f s = record s { rows = map (λ r. if p r then f r else r) s.rows }

abbrev pub new_tx_row : NewTx → ℕ → ℕ → TxRow
new_tx_row tx account id = record {
  id = id;
  txid = tx.txid;
  raw_tx = or_null tx.raw_tx;
  description = or_null tx.description;
  created_at = tx.created_at;
  confirmed_at = or_null tx.confirmed_at;
  block_height = or_null tx.block_height;
  status = tx.status;
  amount = tx.amount;
  account_id = account;
}

-- `INSERT OR IGNORE INTO transactions`, under UNIQUE(txid, account_id)
unfoldable pub insert_tx : NewTx → ℕ → Statement
insert_tx tx account s = if any (is_tx tx.txid account) s.rows then s else record s {
  rows = s.rows ++ (new_tx_row tx account s.next_id ∷ []);
  next_id = suc s.next_id;
}

-- `INSERT OR IGNORE INTO transaction_labels`, under UNIQUE(txid, label, account_id)
unfoldable pub insert_label : ℕ → ℕ → ℕ → Statement
insert_label txid account label s =
    if any (is_label txid label account) s.labels then s else record s {
      labels = s.labels ++ (record { txid = txid; label = label; account_id = account } ∷ []);
    }

-- `DELETE FROM transaction_labels WHERE …`
abbrev pub delete_labels : (TxLabel → Bool) → Statement
delete_labels p s = record s { labels = filter (λ l. not (p l)) s.labels }

-- `DELETE FROM transactions WHERE …`
abbrev pub delete_rows : (TxRow → Bool) → Statement
delete_rows p s = record s { rows = filter (λ r. not (p r)) s.rows }
