-- ===== src/Transactions/Writes.antt =====
-- The calls that write: `addTransaction`, `upsertTransaction`, the updates and the deletions. `account` is
-- `accountId ?? 1`.
use simply_sats.Prelude.{
  ℕ, zero, suc, Bool, true, false, not, ◌&&◌, Option, none, some, or_else, List, [], ◌∷◌, ◌++◌, map,
  filter, any, ◌==◌, if◌then◌else◌, Result, ok, err,
}
use simply_sats.Store.Defs.{DbError, query_failed}
use simply_sats.Transactions.Defs.{
  TxStatus, pending, confirmed, failed, is_pending, Amount, received, sent, TxRow, TxTables, NewTx,
  Statement, or_null, is_tx, is_label, run, update_rows, insert_tx, insert_label, delete_labels,
  delete_rows,
}

-- `amount IS NULL OR (amount = 0 AND $1 != 0)`
abbrev pub is_amount_open : Amount → Option Amount → Bool
is_amount_open new none = true
is_amount_open (received n) (some (received m)) = m == 0 && not (n == 0)
is_amount_open (sent n) (some (received m)) = m == 0
is_amount_open new (some (sent m)) = false

unfoldable pub fill_amount : ℕ → ℕ → Option Amount → List Statement
fill_amount txid account none = []
fill_amount txid account (some a) =
    update_rows (λ r. is_tx txid account r && is_amount_open a r.amount)
      (λ r. record r { amount = some a })
    ∷ []

-- `block_height IS NULL OR status = 'pending'`
abbrev pub unsettled : Option ℕ → TxStatus → Bool
unsettled none status = true
unsettled (some h) status = is_pending status

abbrev pub is_unsettled : TxRow → Bool
is_unsettled r = unsettled r.block_height r.status

-- `tx.blockHeight && tx.status === 'confirmed'`
unfoldable pub settle_height : ℕ → ℕ → Option ℕ → TxStatus → List Statement
settle_height txid account (some h) confirmed =
    if h == 0
    then []
    else update_rows (λ r. is_tx txid account r && is_unsettled r)
        (λ r. record r { block_height = some h; status = confirmed })
      ∷ []
settle_height txid account height status = []

abbrev pub label_statements : ℕ → ℕ → List ℕ → List Statement
label_statements txid account labels = map (insert_label txid account) labels

-- Returns the txid.
abbrev pub with_txid : ℕ → Result (Unit {0}) DbError × TxTables → Result ℕ DbError × TxTables
with_txid txid (ok t, s) = (ok txid, s)
with_txid txid (err e, s) = (err e, s)

unfoldable pub add_statements : NewTx → ℕ → List Statement
unfolding fill_amount settle_height
add_statements tx account =
    insert_tx tx account
    ∷ (fill_amount tx.txid account tx.amount
        ++ (settle_height tx.txid account tx.block_height tx.status
            ++ label_statements tx.txid account tx.labels))

unfoldable pub add_transaction :
    Option ℕ → NewTx → Option ℕ → TxTables → Result ℕ DbError × TxTables
unfolding run add_statements
add_transaction faults tx account s =
    with_txid tx.txid (run faults (add_statements tx (or_else account 1)) s)

-- A field that was not provided keeps its value.
abbrev pub provided {ℓ} : {A : Type ℓ} → Option A → Option A → Option A
provided none old = old
provided (some new) old = some new

-- The `SET` of the fields provided; the status always is.
abbrev pub overwrite : NewTx → TxRow → TxRow
overwrite tx r = record r {
  raw_tx = provided tx.raw_tx r.raw_tx;
  description = provided tx.description r.description;
  block_height = provided tx.block_height r.block_height;
  status = tx.status;
  amount = provided tx.amount r.amount;
}

unfoldable pub upsert_statements : NewTx → ℕ → List Statement
upsert_statements tx account =
    insert_tx tx account
    ∷ update_rows (is_tx tx.txid account) (overwrite tx)
    ∷ label_statements tx.txid account tx.labels

unfoldable pub upsert_transaction :
    Option ℕ → NewTx → Option ℕ → TxTables → Result ℕ DbError × TxTables
unfolding run upsert_statements
upsert_transaction faults tx account s =
    with_txid tx.txid (run faults (upsert_statements tx (or_else account 1)) s)

unfoldable pub update_transaction_amount :
    Option ℕ → ℕ → Amount → Option ℕ → TxTables → Result (Unit {0}) DbError × TxTables
unfolding run
update_transaction_amount faults txid amount account s =
    run faults
      (update_rows (is_tx txid (or_else account 1)) (λ r. record r { amount = some amount }) ∷ []) s

abbrev pub confirmation : TxStatus → ℕ → Option ℕ
confirmation confirmed now = some now
confirmation pending now = none
confirmation failed now = none

unfoldable pub update_transaction_status :
    ℕ
    → Option ℕ
    → ℕ
    → TxStatus
    → Option ℕ
    → Option ℕ
    → TxTables
    → Result (Unit {0}) DbError × TxTables
unfolding run
update_transaction_status now faults txid status height account s =
    run faults
      (update_rows (is_tx txid (or_else account 1)) (λ r. record r {
        status = status;
        confirmed_at = confirmation status now;
        block_height = or_null height;
      })
        ∷ [])
      s

-- `INSERT INTO transaction_labels`, which throws where the label is there. `faults` counts the statements.
unfoldable pub insert_labels :
    Option ℕ → ℕ → ℕ → List ℕ → TxTables → Result (Unit {0}) DbError × TxTables
unfolding insert_label
insert_labels faults txid account [] s = (ok tt, s)
insert_labels (some zero) txid account (l ∷ ls) s = (err query_failed, s)
insert_labels (some (suc n)) txid account (l ∷ ls) s =
    let rest = insert_labels (some n) txid account ls (insert_label txid account l s) in
    if any (is_label txid l account) s.labels then (err query_failed, s) else rest
insert_labels none txid account (l ∷ ls) s =
    let rest = insert_labels none txid account ls (insert_label txid account l s) in
    if any (is_label txid l account) s.labels then (err query_failed, s) else rest

-- `label.trim()` of each label where it leaves something; `trim` is the text function.
abbrev pub trimmed : (ℕ → ℕ) → List ℕ → List ℕ
trimmed trim labels = filter (λ l. not (l == 0)) (map trim labels)

-- What becomes of the labels once the transaction is found.
unfoldable pub replace_labels :
    (ℕ → ℕ) → Option ℕ → ℕ → List ℕ → ℕ → TxTables → Result (Unit {0}) DbError × TxTables
unfolding insert_labels
replace_labels trim (some zero) txid labels account s = (err query_failed, s)
replace_labels trim (some (suc n)) txid labels account s =
    insert_labels (some n) txid account (trimmed trim labels)
      (delete_labels (λ l. l.txid == txid && l.account_id == account) s)
replace_labels trim none txid labels account s =
    insert_labels none txid account (trimmed trim labels)
      (delete_labels (λ l. l.txid == txid && l.account_id == account) s)

-- `faults` counts the writes, which are the statements behind the first.
unfoldable pub update_transaction_labels :
    (ℕ → ℕ) → Option ℕ → ℕ → List ℕ → Option ℕ → TxTables → Result (Unit {0}) DbError × TxTables
unfolding replace_labels
update_transaction_labels trim faults txid labels account s =
    if not (any (is_tx txid (or_else account 1)) s.rows)
    then (ok tt, s)
    else replace_labels trim faults txid labels (or_else account 1) s

unfoldable pub delete_transactions_for_account :
    Option ℕ → ℕ → TxTables → Result (Unit {0}) DbError × TxTables
unfolding run
delete_transactions_for_account faults account s =
    run faults
      (delete_labels (λ l. l.account_id == account)
        ∷ delete_rows (λ r. r.account_id == account)
        ∷ [])
      s

unfoldable pub delete_transaction_by_txid :
    Option ℕ → ℕ → ℕ → TxTables → Result (Unit {0}) DbError × TxTables
unfolding run
delete_transaction_by_txid faults txid account s =
    run faults
      (delete_labels (λ l. l.txid == txid && l.account_id == account)
        ∷ delete_rows (is_tx txid account)
        ∷ [])
      s
