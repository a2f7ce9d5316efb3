-- ===== src/Send/Successes.antt =====
-- What a send that succeeds does to the balance.
use simply_sats.Prelude.{
  if◌then◌else◌, ◌∷◌, ℕ, ◌+◌, ◌-◌, ◌≡◌, refl, ap, inl, inr, Option, none, some, List, filter, arith,
  Result, ok, err, Option-cases,
}
use simply_sats.Types.{Outpoint}
use simply_sats.Builder.{BuiltTransaction}
use simply_sats.Store.Defs.{Store, DbError, is_at}
use simply_sats.Store.Queries.{get_spendable_utxos, get_utxo_by_outpoint}
use simply_sats.Store.Pending.{settle, mark_utxos_pending_spend, confirm_utxos_spent}
use simply_sats.Store.Pending.Rows.{is_hit, execute_each-ok_all}
use simply_sats.Store.Pending.Marking.{rows_value}
use simply_sats.Send.Record.{
  ErrorCode, Events, Wallet, SentTransaction, added, own_output, accepted_txid, track_change,
  after_confirm, with_transaction, record_transaction_result,
}
use simply_sats.Send.Payments.{broadcast_and_record, record_broadcast, after_record}
use simply_sats.Send.Failures.{Ends, unmarked, sent, rolled_back, stuck, execute_broadcast-Ends}
use simply_sats.Send.Balances.{spendable_value, spendable-spent, absent-spent, add_utxo-value}

confirm-ok :
    (now : ℕ) (faults : Option ℕ) (os : List Outpoint) (t : ℕ) (s : Store)
    → (confirm_utxos_spent now faults os t s).0 ≡ ok tt
    → confirm_utxos_spent now faults os t s ≡ confirm_utxos_spent now none os t s
unfolding confirm_utxos_spent
confirm-ok now faults os t s h =
    let e = execute_each-ok_all is_at (settle t now) faults os s.rows h in
    λ i. ((e i).0, record s { rows = (e i).1 })

-- A confirmation that goes on to the change has spent every coin.
after_confirm-some :
    (track : Store → Option Store) (m m' : Result (Unit {0}) DbError × Store) {s' : Store}
    → (m.0 ≡ ok tt → m ≡ m')
    → after_confirm track m ≡ some s'
    → track m'.1 ≡ some s'
after_confirm-some track (ok u, s) m' h e =
    rw (← ap (λ (p : Result (Unit {0}) DbError × Store). p.1) (h refl)) e
after_confirm-some track (err x, s) m' h e = cc

with_transaction-ok :
    (ev : Events) (tx : SentTransaction) (o : Option Store) (w : Wallet)
    → (with_transaction ev tx o w).0 ≡ ok tt
    → (o ≡ some (with_transaction ev tx o w).1.store)
      × ((with_transaction ev tx o w).1.sent ≡ (if ev.record_fails then w.sent else tx ∷ w.sent))
with_transaction-ok ev tx none w h = cc
with_transaction-ok ev tx (some s) w h = (ground arith, ground arith)

-- Tracking the change adds just its value.
track_change-value :
    (ev : Events) (txid n change address account : ℕ) (s s' : Store)
    → ev.add_answer ≡ added
    → get_utxo_by_outpoint (record { txid = txid; vout = n - 1 }) none s ≡ none
    → track_change ev txid n change address (some account) s ≡ some s'
    → spendable_value account s' ≡ spendable_value account s + change
unfolding track_change
track_change-value ev txid n change address account s s' ans absent h =
    elim (Option-cases (ev.script_of address)) [
      | inl e ↦ ground arith
      | inr (script, e) ↦ ground (
        arith,
        add_utxo-value (own_output ev txid (n - 1) change script address) account s absent refl,
      )
    ]

-- What a recorded transaction does after a broadcast that marked the coins in `w`.
record-value :
    (ev : Events) (txid raw_tx n change address account t : ℕ) (amount : Option ℕ)
    (os : List Outpoint) (w : Wallet)
    → let tx : SentTransaction = record {
      txid = txid;
      raw_tx = raw_tx;
      amount = amount;
      account = some account;
    } in
      let w' = record w { store = (mark_utxos_pending_spend ev.now none os t w.store).1 } in
      let r = record_transaction_result ev tx n change address os w' in
      ev.add_answer ≡ added
      → get_utxo_by_outpoint (record { txid = txid; vout = n - 1 }) none w.store ≡ none
      → r.0 ≡ ok tt
      → (spendable_value account r.1.store
            + rows_value (filter (is_hit os) (get_spendable_utxos (some account) w.store))
          ≡ spendable_value account w.store + change)
        × (r.1.sent ≡ (if ev.record_fails then w.sent else tx ∷ w.sent))
unfolding record_transaction_result
record-value ev txid raw_tx n change address account t amount os w ans absent h =
    let marked : Store = (mark_utxos_pending_spend ev.now none os t w.store).1 in
    let tx : SentTransaction = record {
      txid = txid;
      raw_tx = raw_tx;
      amount = amount;
      account = some account;
    } in
    let track = track_change ev txid n change address (some account) in
    let confirmed = confirm_utxos_spent ev.now ev.confirm_faults os txid marked in
    let done =
      with_transaction-ok ev tx (after_confirm track confirmed) (record w { store = marked }) h in
    let tracked =
      after_confirm-some track confirmed (confirm_utxos_spent ev.now none os txid marked)
        (confirm-ok ev.now ev.confirm_faults os txid marked) done.0 in
    (
      omega (
        arith,
        track_change-value ev txid n change address account _ _ ans
            (absent-spent ev.now t txid os (record { txid = txid; vout = n - 1 }) w.store absent)
            tracked,
        spendable-spent ev.now t txid account os w.store,
      ),
      done.1,
    )

after_record-ok :
    (txid : ℕ) (r : Result (Unit {0}) ErrorCode × Wallet) {t : ℕ}
    → (after_record txid r).0 ≡ ok t
    → (r.0 ≡ ok tt) × (t ≡ txid) × ((after_record txid r).1 ≡ r.1)
after_record-ok txid (ok u, w) h = (refl, cc, refl)
after_record-ok txid (err e, w) h = (cc, cc, cc)

-- The books of a payment: coins spent and change, and the record of what was sent.
abbrev pub IsBooked : Events → ℕ → ℕ → BuiltTransaction → Wallet → ℕ → Wallet → Type 0
IsBooked ev account amount b w txid w' =
    (accepted_txid ev ≡ some txid)
    × (spendable_value account w'.store
          + rows_value
              (filter (is_hit b.spent_outpoints) (get_spendable_utxos (some account) w.store))
        ≡ spendable_value account w.store + b.change)
    × (w'.sent ≡ (
        if ev.record_fails
        then w.sent
        else record {
          txid = txid;
          raw_tx = b.raw_tx;
          amount = some (amount + b.fee);
          account = some account;
        }
          ∷ w.sent))

record_broadcast-IsBooked :
    (ev : Events) (account amount : ℕ) (b : BuiltTransaction) (w : Wallet)
    {r : Result ℕ ErrorCode × Store} (txid : ℕ)
    → Ends ev b.txid b.spent_outpoints w.store r
    → (record_broadcast ev account amount b w r).0 ≡ ok txid
    → ev.add_answer ≡ added
    → get_utxo_by_outpoint (record { txid = txid; vout = b.num_outputs - 1 }) none w.store ≡ none
    → IsBooked ev account amount b w txid (record_broadcast ev account amount b w r).1
record_broadcast-IsBooked ev account amount b w txid (unmarked s') h ans absent = cc
record_broadcast-IsBooked ev account amount b w txid (sent t a) h ans absent =
    let r =
      record_transaction_result ev
        (record {
          txid = t;
          raw_tx = b.raw_tx;
          amount = some (amount + b.fee);
          account = some account;
        })
        b.num_outputs b.change b.change_address b.spent_outpoints
        (record w {
          store = (mark_utxos_pending_spend ev.now none b.spent_outpoints b.txid w.store).1;
        }) in
    let (fine, same, end) = after_record-ok t r h in
    let (value, books) =
      record-value ev t b.raw_tx b.num_outputs b.change b.change_address account b.txid
        (some (amount + b.fee)) b.spent_outpoints w ans (rw same at absent) fine in
    rw (same, end) (a, value, books)
record_broadcast-IsBooked ev account amount b w txid (rolled_back a) h ans absent = cc
record_broadcast-IsBooked ev account amount b w txid (stuck s' a) h ans absent = cc

-- A payment that succeeds was broadcast under the txid it returns, a well-formed one. The account's
-- spendable coins are worth what they were, less the coins spent, plus the change. The transaction is
-- recorded with the amount and the fee, unless the write of its record fails: then the payment succeeds
-- without one. This holds when the change output was not known before and its row is written without an
-- error.
pub broadcast_and_record-IsBooked :
    (ev : Events) (account amount : ℕ) (b : BuiltTransaction) (w : Wallet) (txid : ℕ)
    → (broadcast_and_record ev account amount b w).0 ≡ ok txid
    → ev.add_answer ≡ added
    → get_utxo_by_outpoint (record { txid = txid; vout = b.num_outputs - 1 }) none w.store ≡ none
    → IsBooked ev account amount b w txid (broadcast_and_record ev account amount b w).1
unfolding broadcast_and_record
broadcast_and_record-IsBooked ev account amount b w txid h ans absent =
    record_broadcast-IsBooked ev account amount b w txid
      (execute_broadcast-Ends ev b.txid b.spent_outpoints w.store) h ans absent
