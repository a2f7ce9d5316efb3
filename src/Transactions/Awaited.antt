-- ===== src/Transactions/Awaited.antt =====
-- The pending incoming amounts in the balance that is shown.
use simply_sats.Prelude.{
  ℕ, ◌+◌, ◌≤◌, ◌<◌, ◌≡◌, refl, ap, ◌∙◌, Bool, true, false, ◌&&◌, none, some, List, [], ◌∷◌, map,
  filter, All, sum_by, ◌==◌, ltb, if◌then◌else◌, arith,
}
use simply_sats.Types.{Outpoint}
use simply_sats.Store.Defs.{UtxoRow, Store, eq_column, is_null, is_at}
use simply_sats.Store.Queries.{get_balance_from_db}
use simply_sats.Store.Pending.{confirm_utxos_spent, settle}
use simply_sats.Store.Pending.Rows.{is_hit, row_after, execute_each-rows, settle_row}
use simply_sats.Transactions.Defs.{TxRow, TxTables, is_pending}
use simply_sats.Transactions.Queries.{
  incoming, has_open_coin, is_awaited, get_pending_incoming_amount_without_utxo,
  get_transaction_by_txid,
}
use simply_sats.Transactions.Rows.{find}
use simply_sats.WalletSync.Queries.{get_balance_from_database}
use simply_sats.WalletSync.Views.{get_balance_from_database-agrees}

sum_by-find :
    (txid account : ℕ) (keep : TxRow → Bool) (rows : List TxRow) (r : TxRow)
    → find txid account rows ≡ some r
    → keep r ≡ true
    → incoming r.amount ≤ sum_by (λ q. incoming q.amount) (filter keep rows)
sum_by-find txid account keep [] r h k = absurd (ground arith)
sum_by-find txid account keep (q ∷ rows) r h k =
    ground (arith, sum_by-find txid account keep rows r)

-- The coins of an account that a transaction paid are all among the outpoints.
abbrev pub AreCovered : ℕ → ℕ → List Outpoint → List UtxoRow → Type 0
AreCovered txid account os coins =
    All (λ u. (eq_column u.account_id account && u.txid == txid) ≡ true → is_hit os u ≡ true) coins

settled-closed :
    (t now txid account : ℕ) (os : List Outpoint) (u : UtxoRow)
    → ((eq_column u.account_id account && u.txid == txid) ≡ true → is_hit os u ≡ true)
    → let q = row_after is_at (settle t now) os u in
      ((eq_column q.account_id account && q.txid == txid) && (q.spendable && is_null q.spent_at))
      ≡ false
settled-closed t now txid account os u h = ground (arith, settle_row t now os u, h)

has_open_coin-confirm :
    (t now : ℕ) (os : List Outpoint) (r : TxRow) (coins : List UtxoRow)
    → AreCovered r.txid r.account_id os coins
    → has_open_coin (map (row_after is_at (settle t now) os) coins) r ≡ false
unfolding has_open_coin
has_open_coin-confirm t now os r [] c = refl
has_open_coin-confirm t now os r (u ∷ us) c =
    rw (settled-closed t now r.txid r.account_id os u c.0) (has_open_coin-confirm t now os r us c.1)

find-key :
    (txid account : ℕ) (rows : List TxRow) (q : TxRow)
    → find txid account rows ≡ some q
    → (q.txid ≡ txid) × (q.account_id ≡ account)
find-key txid account [] q h = absurd (ground arith)
find-key txid account (r ∷ rows) q h = ground (arith, find-key txid account rows q)

awaited :
    (account : ℕ) (coins : Store) (r : TxRow)
    → r.account_id ≡ account
    → is_pending r.status ≡ true
    → 0 < incoming r.amount
    → has_open_coin coins.rows r ≡ false
    → is_awaited account coins r ≡ true
awaited account coins r a p n c = ground arith

has_open_coin-after :
    (now t : ℕ) (os : List Outpoint) (r : TxRow) (coins : Store)
    → AreCovered r.txid r.account_id os coins.rows
    → has_open_coin (confirm_utxos_spent now none os t coins).1.rows r ≡ false
unfolding confirm_utxos_spent
has_open_coin-after now t os r coins c =
    ap (λ rows. has_open_coin rows r) (execute_each-rows is_at (settle t now) os coins.rows)
    ∙ has_open_coin-confirm t now os r coins.rows c

shown_total :
    (n balance total : ℕ) → n ≤ total → n + balance ≤ balance + (if ltb 0 total then total else 0)
shown_total n balance total h = ground arith

-- The amount of a pending transaction that pays an account counts in the balance shown even after all coins
-- that it paid have been spent, and the spend confirmed: the balance shown is at least the balance of the
-- coins that are left plus that amount.
pub get_balance_from_database-recounts :
    (now t account : ℕ) (os : List Outpoint) (coins : Store) (s : TxTables) (r : TxRow)
    → get_transaction_by_txid r.txid account s ≡ some r
    → is_pending r.status ≡ true
    → 0 < incoming r.amount
    → AreCovered r.txid account os coins.rows
    → incoming r.amount
        + get_balance_from_db none (some account) (confirm_utxos_spent now none os t coins).1
      ≤ get_balance_from_database none
          (some account)
          (some (confirm_utxos_spent now none os t coins).1)
          (some (
            get_pending_incoming_amount_without_utxo account
              (confirm_utxos_spent now none os t coins).1
              s))
unfolding get_transaction_by_txid get_pending_incoming_amount_without_utxo
get_balance_from_database-recounts now t account os coins s r h p n c =
    let after = (confirm_utxos_spent now none os t coins).1 in
    let same = (find-key r.txid account s.rows r h).1 in
    let closed = has_open_coin-after now t os r coins (rw same c) in
    let counted =
      sum_by-find r.txid account (is_awaited account after) s.rows r h
        (awaited account after r same p n closed) in
    let shown =
      get_balance_from_database-agrees none (some account)
        (some (get_pending_incoming_amount_without_utxo account after s)) after in
    rw shown (
      shown_total (incoming r.amount) (get_balance_from_db none (some account) after)
        (get_pending_incoming_amount_without_utxo account after s) counted)
