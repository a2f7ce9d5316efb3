-- ===== src/Transactions/Adding.antt =====
-- What `addTransaction` leaves of the rows that were there.
use simply_sats.Prelude.{
  ℕ, suc, ◌≡◌, refl, sym, subst, ◌⊎◌, inl, inr, Bool, true, false, ◌&&◌, Option, none, some,
  or_else, List, [], ◌∷◌, ◌++◌, any, ◌==◌, if◌then◌else◌, Bool-cases, arith,
}
use simply_sats.Transactions.Defs.{
  TxStatus, pending, confirmed, failed, Amount, received, sent, TxRow, TxTables, NewTx, is_tx,
  is_label, run, update_rows, insert_tx, insert_label, new_tx_row,
}
use simply_sats.Transactions.Writes.{
  is_amount_open, fill_amount, is_unsettled, settle_height, label_statements, add_statements,
  add_transaction,
}
use simply_sats.Transactions.Queries.{get_transaction_by_txid}
use simply_sats.Transactions.Rows.{
  run-Keeps, find, find-append, find-map, AllKeep, All-append, label_statements-Keep,
  with_txid-tables,
}

-- What a known transaction keeps: all but an amount that was missing or zero, and a status that was not
-- settled in a block.
pub record IsKept (r q : TxRow) : Type 0 where
  pub id : q.id ≡ r.id
  pub key : (q.txid ≡ r.txid) × (q.account_id ≡ r.account_id)
  pub raw_tx : q.raw_tx ≡ r.raw_tx
  pub description : q.description ≡ r.description
  pub created_at : q.created_at ≡ r.created_at
  pub confirmed_at : q.confirmed_at ≡ r.confirmed_at
  pub amount : (q.amount ≡ r.amount) ⊎ ((r.amount ≡ none) ⊎ (r.amount ≡ some (received 0)))
  pub settled :
      ((q.block_height ≡ r.block_height) × (q.status ≡ r.status))
      ⊎ ((q.status ≡ confirmed) × (is_unsettled r ≡ true))

IsKept-refl : (r : TxRow) → IsKept r r
IsKept-refl r = ground arith

amount_open :
    (a : Amount) (m : Option Amount)
    → is_amount_open a m ≡ true
    → (m ≡ none) ⊎ (m ≡ some (received 0))
amount_open a none h = inl refl
amount_open (received n) (some (received m)) h = inr (ground arith)
amount_open (sent n) (some (received m)) h = inr (ground arith)
amount_open (received n) (some (sent m)) h = absurd (ground arith)
amount_open (sent n) (some (sent m)) h = absurd (ground arith)

fill-IsKept :
    (a : Amount) (r q : TxRow)
    → IsKept r q
    → is_amount_open a q.amount ≡ true
    → IsKept r (record q { amount = some a })
fill-IsKept a r q k e = record {
  id = k.id;
  key = k.key;
  raw_tx = k.raw_tx;
  description = k.description;
  created_at = k.created_at;
  confirmed_at = k.confirmed_at;
  amount = inr (elim k.amount [
    | inl same ↦ rw (sym same) (amount_open a q.amount e)
    | inr was_open ↦ was_open
  ]);
  settled = k.settled;
}

settle-IsKept :
    (h : ℕ) (r q : TxRow)
    → IsKept r q
    → is_unsettled q ≡ true
    → IsKept r (record q { block_height = some h; status = confirmed })
settle-IsKept h r q k e = record {
  id = k.id;
  key = k.key;
  raw_tx = k.raw_tx;
  description = k.description;
  created_at = k.created_at;
  confirmed_at = k.confirmed_at;
  amount = k.amount;
  settled =
      inr (refl, elim k.settled [ inl same ↦ rw (sym same.0, sym same.1) e | inr late ↦ late.1 ]);
}

-- Every row of `rows` is still there, as far as it is kept.
abbrev pub KeepsRows : List TxRow → TxTables → Type 0
KeepsRows rows t =
    (txid account : ℕ) (r : TxRow)
    → find txid account rows ≡ some r
    → (q : TxRow) × (find txid account t.rows ≡ some q) × IsKept r q

either-KeepsRows :
    (rows : List TxRow) (b : Bool) (t u : TxTables)
    → KeepsRows rows t
    → KeepsRows rows u
    → KeepsRows rows (if b then t else u)
either-KeepsRows rows true t u k l = k
either-KeepsRows rows false t u k l = l

insert_tx-KeepsRows :
    (rows : List TxRow) (tx : NewTx) (account : ℕ) (t : TxTables)
    → KeepsRows rows t
    → KeepsRows rows (insert_tx tx account t)
unfolding insert_tx
insert_tx-KeepsRows rows tx account t keep =
    either-KeepsRows rows (any (is_tx tx.txid account) t.rows) t
      (record t {
        rows = t.rows ++ (new_tx_row tx account t.next_id ∷ []);
        next_id = suc t.next_id;
      })
      keep
      (λ txid a r h.
        let (q, found, kept) = keep txid a r h in
        (q, find-append txid a q t.rows (new_tx_row tx account t.next_id ∷ []) found, kept))

-- An update in place: `g` leaves the keys alone, and what a row is kept of.
module _ (p : TxRow → Bool) (g : TxRow → TxRow)
    (keys : (q : TxRow) → ((g q).txid ≡ q.txid) × ((g q).account_id ≡ q.account_id)) where
  if-key :
      (txid account : ℕ) (q : TxRow) (b : Bool)
      → is_tx txid account (if b then g q else q) ≡ is_tx txid account q
  if-key txid account q true = rw ((keys q).0, (keys q).1)
  if-key txid account q false = refl

  if-IsKept :
      (r q : TxRow) (b : Bool)
      → (b ≡ true → IsKept r (g q))
      → IsKept r q
      → IsKept r (if b then g q else q)
  if-IsKept r q true grown kept = grown refl
  if-IsKept r q false grown kept = kept

  update_rows-KeepsRows :
      (rows : List TxRow)
      → ((r q : TxRow) → IsKept r q → p q ≡ true → IsKept r (g q))
      → (t : TxTables) → KeepsRows rows t
      → KeepsRows rows (update_rows p g t)
  update_rows-KeepsRows rows grow t keep txid a r h =
      let (q, found, kept) = keep txid a r h in
      (
        if p q then g q else q,
        find-map txid a (λ x. if p x then g x else x) (λ x. if-key txid a x (p x)) t.rows q found,
        if-IsKept r q (p q) (grow r q kept) kept,
      )

insert_label-KeepsRows :
    (rows : List TxRow) (txid account label : ℕ) (t : TxTables)
    → KeepsRows rows t
    → KeepsRows rows (insert_label txid account label t)
unfolding insert_label
insert_label-KeepsRows rows txid account label t keep =
    either-KeepsRows rows (any (is_label txid label account) t.labels) t
      (record t {
        labels = t.labels ++ (record { txid = txid; label = label; account_id = account } ∷ []);
      })
      keep keep

-- A lawful `AND`.
and_true : (x y : Bool) → x && y ≡ true → (x ≡ true) × (y ≡ true)
and_true true true h = (refl, refl)
and_true true false h = absurd (ground arith)
and_true false y h = absurd (ground arith)

fill_amount-Keep :
    (rows : List TxRow) (txid account : ℕ) (amount : Option Amount)
    → AllKeep (KeepsRows rows) (fill_amount txid account amount)
unfolding fill_amount
fill_amount-Keep rows txid account none = tt
fill_amount-Keep rows txid account (some a) = (
  update_rows-KeepsRows (λ r. is_tx txid account r && is_amount_open a r.amount)
      (λ r. record r { amount = some a }) (λ q. (refl, refl)) rows
      (λ r q kept e.
        fill-IsKept a r q kept (and_true (is_tx txid account q) (is_amount_open a q.amount) e).1),
  tt,
)

settle_height-Keep :
    (rows : List TxRow) (txid account : ℕ) (height : Option ℕ) (status : TxStatus)
    → AllKeep (KeepsRows rows) (settle_height txid account height status)
unfolding settle_height
settle_height-Keep rows txid account none pending = tt
settle_height-Keep rows txid account none confirmed = tt
settle_height-Keep rows txid account none failed = tt
settle_height-Keep rows txid account (some h) pending = tt
settle_height-Keep rows txid account (some h) failed = tt
settle_height-Keep rows txid account (some h) confirmed = elim (Bool-cases (h == 0)) [
  | inl e ↦ rw e tt
  | inr e ↦ rw e (
    update_rows-KeepsRows (λ r. is_tx txid account r && is_unsettled r)
        (λ r. record r { block_height = some h; status = confirmed }) (λ q. (refl, refl)) rows
        (λ r q kept f.
          settle-IsKept h r q kept (and_true (is_tx txid account q) (is_unsettled q) f).1),
    tt,
  )
]

add_statements-Keep :
    (rows : List TxRow) (tx : NewTx) (account : ℕ)
    → AllKeep (KeepsRows rows) (add_statements tx account)
unfolding add_statements
add_statements-Keep rows tx account = (
  insert_tx-KeepsRows rows tx account,
  All-append _ (fill_amount tx.txid account tx.amount)
      (settle_height tx.txid account tx.block_height tx.status
        ++ label_statements tx.txid account tx.labels)
      (fill_amount-Keep rows tx.txid account tx.amount)
      (All-append _ (settle_height tx.txid account tx.block_height tx.status)
        (label_statements tx.txid account tx.labels)
        (settle_height-Keep rows tx.txid account tx.block_height tx.status)
        (label_statements-Keep (KeepsRows rows) tx.txid account
          (λ l. insert_label-KeepsRows rows tx.txid account l) tx.labels)),
)

-- `addTransaction` does not overwrite: a transaction that an account has keeps all that it says, but for an
-- amount that was missing or zero, and, if it had no block or was pending, for becoming confirmed. This
-- holds for every transaction of the table, and wherever the database fails.
pub add_transaction-IsKept :
    (faults : Option ℕ) (tx : NewTx) (into : Option ℕ) (s : TxTables) (txid account : ℕ) (r : TxRow)
    → get_transaction_by_txid txid account s ≡ some r
    → (q : TxRow) × (get_transaction_by_txid txid account (add_transaction faults tx into s).1
        ≡ some q)
      × IsKept r q
unfolding get_transaction_by_txid add_transaction
add_transaction-IsKept faults tx into s txid account r h =
    subst (λ t. (q : TxRow) × (find txid account t.rows ≡ some q) × IsKept r q)
      (sym (with_txid-tables tx.txid (run faults (add_statements tx (or_else into 1)) s)))
      (run-Keeps (KeepsRows s.rows) faults (add_statements tx (or_else into 1)) s
        (add_statements-Keep s.rows tx (or_else into 1)) (λ x a q e. (q, e, IsKept-refl q)) txid
        account r h)
