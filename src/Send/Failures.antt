-- ===== src/Send/Failures.antt =====
-- What a send that fails leaves behind.
use simply_sats.Prelude.{
  ℕ, ◌<◌, ◌≡◌, refl, sym, ap, ◌⊎◌, inl, inr, true, not, Option, [], none, some, List, filter, All,
  arith, length, take, Result, ok, err, subst,
}
use simply_sats.Types.{Outpoint}
use simply_sats.Builder.{BuiltTransaction}
use simply_sats.Store.Defs.{Store, DbError}
use simply_sats.Store.Queries.{get_spendable_utxos}
use simply_sats.Store.Pending.{
  pend, can_pend, unpend, can_unpend, mark_utxos_pending_spend, rollback_pending_spend,
}
use simply_sats.Store.Pending.Rows.{is_hit, execute_each-ok_all}
use simply_sats.Store.Pending.Marking.{
  IsClear, rollback-mark, mark_utxos_pending_spend-faults, get_spendable_utxos-mark,
}
use simply_sats.Send.Record.{
  ErrorCode, Events, Wallet, SentTransaction, with_transaction, broadcast_failed, database_error,
  broadcast_succeeded_db_failed, utxo_stuck_in_pending, accepted_txid, after_rollback,
  after_broadcast, after_mark, execute_broadcast, record_transaction_result,
}
use simply_sats.Send.Payments.{Prepared, pay, broadcast_and_record, record_broadcast, after_record}

mark-ok :
    (now : ℕ) (faults : Option ℕ) (os : List Outpoint) (t : ℕ) (s : Store)
    → (mark_utxos_pending_spend now faults os t s).0 ≡ ok tt
    → mark_utxos_pending_spend now faults os t s ≡ mark_utxos_pending_spend now none os t s
unfolding mark_utxos_pending_spend
mark-ok now faults os t s h =
    let e = execute_each-ok_all can_pend (pend t now) faults os s.rows h in
    λ i. ((e i).0, record s { rows = (e i).1 })

rollback-ok :
    (faults : Option ℕ) (os : List Outpoint) (s : Store)
    → (rollback_pending_spend faults os s).0 ≡ ok tt
    → rollback_pending_spend faults os s ≡ rollback_pending_spend none os s
unfolding rollback_pending_spend
rollback-ok faults os s h =
    let e = execute_each-ok_all can_unpend unpend faults os s.rows h in
    λ i. ((e i).0, record s { rows = (e i).1 })

-- The ways in which `executeBroadcast` ends, with the state it leaves.
pub data Ends (ev : Events) (t : ℕ) (os : List Outpoint) (s : Store)
    : Result ℕ ErrorCode × Store → Type 0 where
  unmarked : (s' : Store) → Ends ev t os s (err database_error, s')
  sent :
      (txid : ℕ)
      → accepted_txid ev ≡ some txid
      → Ends ev t os s (ok txid, (mark_utxos_pending_spend ev.now none os t s).1)
  rolled_back :
      accepted_txid ev ≡ none
      → Ends ev t os s (
        err broadcast_failed,
        (rollback_pending_spend none os (mark_utxos_pending_spend ev.now none os t s).1).1,
      )
  stuck : (s' : Store) → accepted_txid ev ≡ none → Ends ev t os s (err utxo_stuck_in_pending, s')

after_rollback-Ends :
    (ev : Events) (t : ℕ) (os : List Outpoint) (s : Store) (r : Result (Unit {0}) DbError × Store)
    → accepted_txid ev ≡ none
    → (r.0 ≡ ok tt
        → r ≡ rollback_pending_spend none os (mark_utxos_pending_spend ev.now none os t s).1)
    → Ends ev t os s (after_rollback r)
after_rollback-Ends ev t os s (ok u, s') refused h =
    subst (λ (q : Store). Ends ev t os s (err broadcast_failed, q))
      (ap (λ (p : Result (Unit {0}) DbError × Store). p.1) (sym (h refl))) (rolled_back refused)
after_rollback-Ends ev t os s (err e, s') refused h = stuck s' refused

after_broadcast-Ends :
    (ev : Events) (t : ℕ) (os : List Outpoint) (s : Store) (accepted : Option ℕ)
    → accepted_txid ev ≡ accepted
    → Ends ev t os s
        (after_broadcast ev os accepted (mark_utxos_pending_spend ev.now none os t s).1)
after_broadcast-Ends ev t os s (some txid) e = sent txid e
after_broadcast-Ends ev t os s none e =
    after_rollback-Ends ev t os s
      (rollback_pending_spend ev.rollback_faults os (mark_utxos_pending_spend ev.now none os t s).1)
      e (rollback-ok ev.rollback_faults os (mark_utxos_pending_spend ev.now none os t s).1)

after_mark-Ends :
    (ev : Events) (t : ℕ) (os : List Outpoint) (s : Store) (m : Result (Unit {0}) DbError × Store)
    → (m.0 ≡ ok tt → m ≡ mark_utxos_pending_spend ev.now none os t s)
    → Ends ev t os s (after_mark ev os m)
after_mark-Ends ev t os s (ok u, s') h =
    subst (λ (q : Store). Ends ev t os s (after_broadcast ev os (accepted_txid ev) q))
      (ap (λ (p : Result (Unit {0}) DbError × Store). p.1) (sym (h refl)))
      (after_broadcast-Ends ev t os s (accepted_txid ev) refl)
after_mark-Ends ev t os s (err e, s') h = unmarked s'

pub execute_broadcast-Ends :
    (ev : Events) (t : ℕ) (os : List Outpoint) (s : Store)
    → Ends ev t os s (execute_broadcast ev t os s)
unfolding execute_broadcast
execute_broadcast-Ends ev t os s =
    after_mark-Ends ev t os s (mark_utxos_pending_spend ev.now ev.mark_faults os t s)
      (mark-ok ev.now ev.mark_faults os t s)

Ends-restores :
    (ev : Events) (t : ℕ) (os : List Outpoint) (s : Store) {r : Result ℕ ErrorCode × Store}
    → All (λ q. is_hit os q ≡ true → IsClear q) s.rows
    → Ends ev t os s r
    → r.0 ≡ err broadcast_failed
    → r.1 ≡ s
Ends-restores ev t os s clear (unmarked s') e = cc
Ends-restores ev t os s clear (sent txid a) e = cc
Ends-restores ev t os s clear (rolled_back a) e =
    ap (λ (p : Result (Unit {0}) DbError × Store). p.1) (rollback-mark ev.now os t s clear)
Ends-restores ev t os s clear (stuck s' a) e = cc

-- A broadcast that fails and is rolled back leaves the table exactly as it was, if none of the
-- coins was pending before.
execute_broadcast-restores :
    (ev : Events) (t : ℕ) (os : List Outpoint) (s : Store)
    → All (λ q. is_hit os q ≡ true → IsClear q) s.rows
    → (execute_broadcast ev t os s).0 ≡ err broadcast_failed
    → (execute_broadcast ev t os s).1 ≡ s
execute_broadcast-restores ev t os s clear e =
    Ends-restores ev t os s clear (execute_broadcast-Ends ev t os s) e

-- The codes under which the tables may have changed, or the transaction is on chain.
abbrev pub IsUnsettled : ErrorCode → Type 0
IsUnsettled e =
    (e ≡ broadcast_succeeded_db_failed) ⊎ (e ≡ database_error) ⊎ (e ≡ utxo_stuck_in_pending)

with_transaction-err :
    (ev : Events) (tx : SentTransaction) (o : Option Store) (w : Wallet) {e : ErrorCode}
    → (with_transaction ev tx o w).0 ≡ err e
    → e ≡ broadcast_succeeded_db_failed
with_transaction-err ev tx none w h = cc
with_transaction-err ev tx (some s) w h = ground arith

record_transaction_result-err :
    (ev : Events) (tx : SentTransaction) (n change address : ℕ) (os : List Outpoint) (w : Wallet)
    {e : ErrorCode}
    → (record_transaction_result ev tx n change address os w).0 ≡ err e
    → e ≡ broadcast_succeeded_db_failed
unfolding record_transaction_result
record_transaction_result-err ev tx n change address os w h = with_transaction-err ev tx _ w h

after_record-err :
    (txid : ℕ) (r : Result (Unit {0}) ErrorCode × Wallet) {e : ErrorCode}
    → (after_record txid r).0 ≡ err e
    → r.0 ≡ err e
after_record-err txid (ok u, w) h = cc
after_record-err txid (err e, w) h = cc

record_broadcast-restores :
    (ev : Events) (account amount : ℕ) (b : BuiltTransaction) (w : Wallet)
    {r : Result ℕ ErrorCode × Store} {e : ErrorCode}
    → All (λ q. is_hit b.spent_outpoints q ≡ true → IsClear q) w.store.rows
    → Ends ev b.txid b.spent_outpoints w.store r
    → (record_broadcast ev account amount b w r).0 ≡ err e
    → ¬ IsUnsettled e
    → (record_broadcast ev account amount b w r).1 ≡ w
record_broadcast-restores ev account amount b w clear (unmarked s') h ne =
    absurd (ne (inr (inl (cc))))
record_broadcast-restores ev account amount b w clear (sent txid a) h ne = absurd (
    ne (
      inl (
        record_transaction_result-err ev _ b.num_outputs b.change b.change_address b.spent_outpoints
          _ (after_record-err txid _ h))))
record_broadcast-restores ev account amount b w clear (rolled_back a) h ne =
    ap (λ (s : Store). record w { store = s })
      (ap (λ (p : Result (Unit {0}) DbError × Store). p.1)
        (rollback-mark ev.now b.spent_outpoints b.txid w.store clear))
record_broadcast-restores ev account amount b w clear (stuck s' a) h ne =
    absurd (ne (inr (inr (cc))))

abbrev pub outpoints_of : Prepared → List Outpoint
outpoints_of (err e) = []
outpoints_of (ok (account, err e)) = []
outpoints_of (ok (account, ok b)) = b.spent_outpoints

-- A payment that fails, however it was prepared, leaves the coins and the records exactly as they
-- were, if none of the coins it would spend was pending before: unless the code says that the
-- database failed, that the coins are stuck, or that the broadcast had succeeded.
pub pay-restores :
    (ev : Events) (amount : ℕ) (p : Prepared) (w : Wallet) (e : ErrorCode)
    → All (λ q. is_hit (outpoints_of p) q ≡ true → IsClear q) w.store.rows
    → (pay ev amount p w).0 ≡ err e
    → ¬ IsUnsettled e
    → (pay ev amount p w).1 ≡ w
unfolding broadcast_and_record
pay-restores ev amount (err e') w e clear h ne = refl
pay-restores ev amount (ok (account, err e')) w e clear h ne = refl
pay-restores ev amount (ok (account, ok b)) w e clear h ne =
    record_broadcast-restores ev account amount b w clear
      (execute_broadcast-Ends ev b.txid b.spent_outpoints w.store) h ne

-- When the database fails while the coins are being marked, the payment is refused before any
-- broadcast, and nothing takes the marks back: the coins marked so far are no longer spendable.
pub broadcast_and_record-mark_faults :
    (ev : Events) (account amount : ℕ) (b : BuiltTransaction) (w : Wallet) (n : ℕ) (a : Option ℕ)
    → ev.mark_faults ≡ some n
    → n < length b.spent_outpoints
    → ((broadcast_and_record ev account amount b w).0 ≡ err database_error)
      × (get_spendable_utxos a (broadcast_and_record ev account amount b w).1.store
          ≡ filter (λ r. not (is_hit (take n b.spent_outpoints) r)) (get_spendable_utxos a w.store))
unfolding broadcast_and_record execute_broadcast
broadcast_and_record-mark_faults ev account amount b w n a e h =
    rw (e, mark_utxos_pending_spend-faults ev.now n b.spent_outpoints b.txid w.store h)
      (refl, (get_spendable_utxos-mark ev.now (take n b.spent_outpoints) b.txid a w.store).1)
