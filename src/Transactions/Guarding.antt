-- ===== src/Transactions/Guarding.antt =====
-- What the table of transactions does to the coins: those of a pending transaction are not for spending.
use simply_sats.Prelude.{
  ℕ, zero, suc, ◌≡◌, refl, ap, ◌∙◌, ◌≢◌, inl, inr, true, false, not, ◌&&◌, Option, none, some, List,
  [], ◌∷◌, ◌++◌, map, filter, any, All-filter, All-imp, All, leb, if◌then◌else◌, Result, ok, err,
  Bool-cases, arith,
}
use simply_sats.Store.Defs.{DbError}
use simply_sats.Transactions.Defs.{
  pending, is_pending, TxRow, TxTables, NewTx, Statement, is_tx, run, update_rows, insert_tx,
  insert_label, new_tx_row,
}
use simply_sats.Transactions.Writes.{
  label_statements, with_txid, overwrite, upsert_statements, upsert_transaction,
}
use simply_sats.Coins.{insert_by_value, sort_utxos_by_value}
use simply_sats.Store.Defs.{UtxoRow, Store}
use simply_sats.Store.Queries.{get_spendable_utxos}
use simply_sats.Transactions.Queries.{get_pending_transaction_txids, tx_in_account}
use simply_sats.Transactions.Rows.{find, find-map, with_txid-tables}
use simply_sats.WalletSync.Queries.{get_spendable_utxos_from_database, is_among, in_basket}

-- All statements, one after the other.
carry_out : List Statement → TxTables → TxTables
carry_out [] s = s
carry_out (f ∷ fs) s = carry_out fs (f s)

run-ok :
    (faults : Option ℕ) (fs : List Statement) (s : TxTables)
    → (run faults fs s).0 ≡ ok tt
    → (run faults fs s).1 ≡ carry_out fs s
unfolding run carry_out
run-ok none [] s h = refl
run-ok (some zero) [] s h = refl
run-ok (some (suc n)) [] s h = refl
run-ok none (f ∷ fs) s h = run-ok none fs (f s) h
run-ok (some zero) (f ∷ fs) s h = absurd (ground arith)
run-ok (some (suc n)) (f ∷ fs) s h = run-ok (some n) fs (f s) h

any-find :
    (txid account : ℕ) (rows : List TxRow)
    → any (is_tx txid account) rows ≡ true
    → (q : TxRow) × (find txid account rows ≡ some q)
any-find txid account [] h = absurd (ground arith)
any-find txid account (r ∷ rows) h = elim (Bool-cases (is_tx txid account r)) [
  | inl e ↦ (r, rw e)
  | inr e ↦ let (q, f) = any-find txid account rows (ground arith) in (q, rw e f)
]

find-new :
    (txid account : ℕ) (new : TxRow) (rows : List TxRow)
    → any (is_tx txid account) rows ≡ false
    → is_tx txid account new ≡ true
    → find txid account (rows ++ (new ∷ [])) ≡ some new
find-new txid account new [] h k = rw k
find-new txid account new (r ∷ rows) h k = ground (arith, find-new txid account new rows)

is_tx_self :
    (txid account : ℕ) (r : TxRow)
    → r.txid ≡ txid
    → r.account_id ≡ account
    → is_tx txid account r ≡ true
is_tx_self txid account r e f = ground arith

insert_tx-find :
    (tx : NewTx) (account : ℕ) (s : TxTables)
    → (q : TxRow) × (find tx.txid account (insert_tx tx account s).rows ≡ some q)
unfolding insert_tx
insert_tx-find tx account s = elim (Bool-cases (any (is_tx tx.txid account) s.rows)) [
  | inl e ↦ let (q, f) = any-find tx.txid account s.rows e in (q, rw e f)
  | inr e ↦
      let new = new_tx_row tx account s.next_id in
      (new, rw e (find-new tx.txid account new s.rows e (is_tx_self tx.txid account new refl refl)))
]

rows-insert_label :
    (txid account label : ℕ) (s : TxTables) → (insert_label txid account label s).rows ≡ s.rows
unfolding insert_label
rows-insert_label txid account label s = ground arith

rows-labels :
    (txid account : ℕ) (labels : List ℕ) (s : TxTables)
    → (carry_out (label_statements txid account labels) s).rows ≡ s.rows
unfolding carry_out insert_label
rows-labels txid account [] s = refl
rows-labels txid account (l ∷ ls) s =
    rows-labels txid account ls (insert_label txid account l s) ∙ rows-insert_label txid account l s

pending-listed :
    (txid account : ℕ) (rows : List TxRow) (q : TxRow)
    → find txid account rows ≡ some q
    → is_pending q.status ≡ true
    → is_among
        (map
          (λ r. r.txid)
          (filter (λ r. is_pending r.status && tx_in_account (some account) r) rows))
        txid
      ≡ true
pending-listed txid account [] q h p = absurd (ground arith)
pending-listed txid account (r ∷ rows) q h p = ground (arith, pending-listed txid account rows q)

find-IsFound :
    (txid account : ℕ) (rows : List TxRow) (q : TxRow)
    → find txid account rows ≡ some q
    → is_tx txid account q ≡ true
find-IsFound txid account [] q h = absurd (ground arith)
find-IsFound txid account (r ∷ rows) q h = ground (arith, find-IsFound txid account rows q)

put-key :
    (tx : NewTx) (account : ℕ) (r : TxRow)
    → is_tx tx.txid account (if is_tx tx.txid account r then overwrite tx r else r)
      ≡ is_tx tx.txid account r
put-key tx account r = ground arith

-- After a successful call, the transaction is in the table with the status that was given.
upsert_statements-find :
    (tx : NewTx) (account : ℕ) (s : TxTables)
    → (q : TxRow) × (find tx.txid account (carry_out (upsert_statements tx account) s).rows
        ≡ some q)
      × (q.status ≡ tx.status)
unfolding upsert_statements carry_out
upsert_statements-find tx account s =
    let (q, found) = insert_tx-find tx account s in
    let put : TxRow → TxRow = λ r. if is_tx tx.txid account r then overwrite tx r else r in
    let written = update_rows (is_tx tx.txid account) (overwrite tx) (insert_tx tx account s) in
    (
      overwrite tx q,
      ap (find tx.txid account) (rows-labels tx.txid account tx.labels written)
          ∙ (find-map tx.txid account put (λ r. put-key tx account r) (insert_tx tx account s).rows
                q found
              ∙ ap (λ b. some (if b then overwrite tx q else q))
                  (find-IsFound tx.txid account (insert_tx tx account s).rows q found)),
      refl,
    )

insert-All {ℓ} :
    {A : Type ℓ} (value : A → ℕ) (P : A → Type 0) (x : A) (xs : List A)
    → P x
    → All P xs
    → All P (insert_by_value value x xs)
unfolding insert_by_value
insert-All value P x [] p h = (p, tt)
insert-All value P x (y ∷ ys) p h = elim (Bool-cases (leb (value x) (value y))) [
  | inl e ↦ rw e (p, h)
  | inr e ↦ rw e (h.0, insert-All value P x ys p h.1)
]

sort-All {ℓ} :
    {A : Type ℓ} (value : A → ℕ) (P : A → Type 0) (xs : List A)
    → All P xs
    → All P (sort_utxos_by_value value xs)
unfolding sort_utxos_by_value
sort-All value P [] h = tt
sort-All value P (x ∷ xs) h =
    insert-All value P x (sort_utxos_by_value value xs) h.0 (sort-All value P xs h.1)

with_txid-ok :
    (txid : ℕ) (r : Result (Unit {0}) DbError × TxTables)
    → (with_txid txid r).0 ≡ ok txid
    → r.0 ≡ ok tt
with_txid-ok txid (ok tt, s) h = refl
with_txid-ok txid (err e, s) h = absurd (ground arith)

listed-excluded :
    (txids : List ℕ) (t u : ℕ) → is_among txids t ≡ true → not (is_among txids u) ≡ true → u ≢ t
listed-excluded txids t u h k e = ground arith

excluded :
    (txids : List ℕ) (t : ℕ) (us : List UtxoRow)
    → is_among txids t ≡ true
    → All
        (λ u. u.txid ≢ t)
        (sort_utxos_by_value (λ u. u.satoshis) (filter (λ u. not (is_among txids u.txid)) us))
excluded txids t us h =
    sort-All (λ u. u.satoshis) (λ u. u.txid ≢ t) (filter (λ u. not (is_among txids u.txid)) us)
      (All-imp (λ u. not (is_among txids u.txid) ≡ true) (λ u. u.txid ≢ t)
        (filter (λ u. not (is_among txids u.txid)) us) (λ u. listed-excluded txids t u.txid h)
        (All-filter (λ u. not (is_among txids u.txid)) us))

upsert_transaction-listed :
    (faults : Option ℕ) (tx : NewTx) (account : ℕ) (s : TxTables)
    → tx.status ≡ pending
    → (upsert_transaction faults tx (some account) s).0 ≡ ok tx.txid
    → is_among
        (get_pending_transaction_txids
          (some account)
          (upsert_transaction faults tx (some account) s).1)
        tx.txid
      ≡ true
unfolding upsert_transaction get_pending_transaction_txids
upsert_transaction-listed faults tx account s p h =
    let fs = upsert_statements tx account in
    let done =
      with_txid-tables tx.txid (run faults fs s)
      ∙ run-ok faults fs s (with_txid-ok tx.txid (run faults fs s) h) in
    let (q, found, status) = upsert_statements-find tx account s in
    pending-listed tx.txid account (with_txid tx.txid (run faults fs s)).1.rows q
      (ap (λ t. find tx.txid account t.rows) done ∙ found) (ap is_pending (status ∙ p))

-- Once a transaction is recorded as pending, none of its outputs is offered for spending in its account, as
-- long as the table says so: the coins are selected with the pending txids that the same table gives.
pub upsert_transaction-protects :
    (faults : Option ℕ) (tx : NewTx) (account basket : ℕ) (s : TxTables) (coins : Store)
    → tx.status ≡ pending
    → (upsert_transaction faults tx (some account) s).0 ≡ ok tx.txid
    → All
        (λ u. u.txid ≢ tx.txid)
        (get_spendable_utxos_from_database basket (some account) (some coins) (
          some (
            get_pending_transaction_txids
              (some account)
              (upsert_transaction faults tx (some account) s).1)))
unfolding get_spendable_utxos_from_database
upsert_transaction-protects faults tx account basket s coins p h =
    excluded
      (get_pending_transaction_txids (some account)
        (upsert_transaction faults tx (some account) s).1)
      tx.txid (filter (in_basket basket) (get_spendable_utxos (some account) coins))
      (upsert_transaction-listed faults tx account s p h)
