-- ===== src/Transactions/Queries.antt =====
-- The calls that read. They return the rows that the source maps field by field; ties of an order keep the
-- table's.
use simply_sats.Prelude.{
  ℕ, Bool, true, false, not, ◌&&◌, ◌||◌, Option, none, some, or_else, List, [], ◌∷◌, ◌++◌, map,
  filter, any, length, take, drop, sum_by, ◌==◌, ltb, leb, if◌then◌else◌,
}
use simply_sats.Store.Defs.{UtxoRow, Store, eq_column, if_given, is_null}
use simply_sats.Transactions.Defs.{
  Amount, received, sent, TxRow, TxLabel, TxTables, is_pending, is_tx,
}

module _ {ℓ} {A : Type ℓ} (before : A → A → Bool) where
  -- `ORDER BY`
  unfoldable pub insert_before : A → List A → List A
  insert_before r [] = r ∷ []
  insert_before r (q ∷ qs) = if before r q then r ∷ q ∷ qs else q ∷ insert_before r qs

  unfoldable pub order_by : List A → List A
  unfolding insert_before
  order_by [] = []
  order_by (r ∷ rs) = insert_before r (order_by rs)

-- `account_id = $n`, if an account is given
abbrev pub tx_in_account : Option ℕ → TxRow → Bool
tx_in_account account r = if_given account (λ a. r.account_id == a)

-- Rows with no block first, then by height, then by time, the newest first.
unfoldable pub newest_first : TxRow → TxRow → Bool
newest_first r q = elim r.block_height [
  | none ↦ elim q.block_height [ none ↦ leb q.created_at r.created_at | some k ↦ true ]
  | some h ↦ elim q.block_height [
    | none ↦ false
    | some k ↦ ltb k h || h == k && leb q.created_at r.created_at
  ]
]

abbrev pub default_tx_limit : ℕ
default_tx_limit = 200

unfoldable pub get_all_transactions : Option ℕ → Option ℕ → Option ℕ → TxTables → List TxRow
unfolding newest_first order_by
get_all_transactions account limit offset s =
    take (or_else limit default_tx_limit)
      (drop (or_else offset 0) (order_by newest_first (filter (tx_in_account account) s.rows)))

unfoldable pub get_transaction_count : Option ℕ → TxTables → ℕ
get_transaction_count account s = length (filter (tx_in_account account) s.rows)

-- `INNER JOIN transaction_labels`: a row for each label that fits.
abbrev pub join_labels : (TxRow → TxLabel → Bool) → List TxLabel → List TxRow → List TxRow
join_labels fits labels [] = []
join_labels fits labels (r ∷ rs) =
    map (λ l. r) (filter (fits r) labels) ++ join_labels fits labels rs

abbrev pub by_created_desc : TxRow → TxRow → Bool
by_created_desc r q = leb q.created_at r.created_at

unfoldable pub get_transactions_by_label : ℕ → Option ℕ → TxTables → List TxRow
unfolding order_by
get_transactions_by_label label (some account) s = order_by by_created_desc (
    filter (λ r. r.account_id == account)
      (join_labels (λ r l. (r.txid == l.txid && l.account_id == r.account_id) && l.label == label)
        s.labels s.rows))
get_transactions_by_label label none s =
    order_by by_created_desc
      (join_labels (λ r l. r.txid == l.txid && l.label == label) s.labels s.rows)

unfoldable pub get_transaction_labels : ℕ → Option ℕ → TxTables → List ℕ
get_transaction_labels txid account s =
    map (λ l. l.label)
      (filter (λ l. l.txid == txid && if_given account (λ a. l.account_id == a)) s.labels)

abbrev pub first_row : List TxRow → Option TxRow
first_row [] = none
first_row (r ∷ rs) = some r

unfoldable pub get_transaction_by_txid : ℕ → ℕ → TxTables → Option TxRow
get_transaction_by_txid txid account s = first_row (filter (is_tx txid account) s.rows)

unfoldable pub get_pending_transaction_txids : Option ℕ → TxTables → List ℕ
get_pending_transaction_txids account s =
    map (λ r. r.txid) (filter (λ r. is_pending r.status && tx_in_account account r) s.rows)

abbrev pub by_created_asc : TxRow → TxRow → Bool
by_created_asc r q = leb r.created_at q.created_at

-- The rows stand for their txids and times.
unfoldable pub get_pending_transactions : Option ℕ → TxTables → List TxRow
unfolding order_by
get_pending_transactions account s =
    order_by by_created_asc (filter (λ r. is_pending r.status && tx_in_account account r) s.rows)

unfoldable pub get_known_txids : Option ℕ → TxTables → List ℕ
get_known_txids account s = map (λ r. r.txid) (filter (tx_in_account account) s.rows)

-- `amount > 0`, and how much of it.
abbrev pub incoming : Option Amount → ℕ
incoming none = 0
incoming (some (received n)) = n
incoming (some (sent n)) = 0

-- The `EXISTS` on the table of coins.
unfoldable pub has_open_coin : List UtxoRow → TxRow → Bool
has_open_coin coins r =
    any
      (λ u.
        (eq_column u.account_id r.account_id && u.txid == r.txid)
        && (u.spendable && is_null u.spent_at))
      coins

abbrev pub is_awaited : ℕ → Store → TxRow → Bool
is_awaited account coins r =
    (r.account_id == account && is_pending r.status)
    && (ltb 0 (incoming r.amount) && not (has_open_coin coins.rows r))

unfoldable pub get_pending_incoming_amount_without_utxo : ℕ → Store → TxTables → ℕ
unfolding has_open_coin
get_pending_incoming_amount_without_utxo account coins s =
    sum_by (λ r. incoming r.amount) (filter (is_awaited account coins) s.rows)
