-- ===== src/Tests/Sending.antt =====
-- Payments.
use simply_sats.Prelude.{
  ℕ, ◌≡◌, refl, inl, inr, true, false, Option, none, some, [], ◌∷◌, ok, err, arith,
}
use simply_sats.Types.{Utxo, ExtendedUtxo}
use simply_sats.Builder.{RecipientOutput, BuildCommand, Backend, BackendReply, BuiltTransaction}
use simply_sats.Store.Queries.{get_spendable_utxos, get_utxo_by_outpoint}
use simply_sats.Store.Pending.{
  mark_utxos_pending_spend, confirm_utxos_spent, rollback_pending_spend,
}
use simply_sats.Send.Record.{
  Events, Wallet, added, broadcast_failed, database_error, execute_broadcast,
  record_transaction_result, track_change, accepted_txid,
}
use simply_sats.Send.Payments.{Context, broadcast_and_record, pay}
use simply_sats.Send.Failures.{IsUnsettled, pay-restores, broadcast_and_record-mark_faults}
use simply_sats.Send.Successes.{IsBooked, broadcast_and_record-IsBooked}
use simply_sats.Store.Adding.{add_utxo}
use simply_sats.Tests.Data.{rate_1, two_rows, first_out, second_out, row}

-- Everything succeeds, under the txid 77.
abbrev good_events : Events
good_events = record {
  now = 500;
  broadcast = some 77;
  is_txid = λ t. true;
  mark_faults = none;
  rollback_faults = none;
  confirm_faults = none;
  add_answer = added;
  record_fails = false;
  commit_fails = false;
  script_of = λ a. some 9;
}

abbrev wallet : Wallet
wallet = record { store = two_rows; sent = [] }

abbrev payment : BuiltTransaction
payment = record {
  raw_tx = 70;
  txid = 77;
  fee = 200;
  change = 200;
  change_address = 6;
  num_outputs = 2;
  spent_outpoints = first_out ∷ [];
}

broadcast_and_record-IsBooked_example :
    IsBooked good_events 1 600 payment wallet 77
      (broadcast_and_record good_events 1 600 payment wallet).1
unfolding broadcast_and_record get_utxo_by_outpoint execute_broadcast mark_utxos_pending_spend
    record_transaction_result confirm_utxos_spent
broadcast_and_record-IsBooked_example =
    broadcast_and_record-IsBooked good_events 1 600 payment wallet 77 refl refl refl

-- The write of the record fails, and the payment succeeds.
broadcast_and_record_unrecorded :
    let r =
      broadcast_and_record (record good_events { record_fails = true }) 1 600 payment wallet in
    (r.0 ≡ ok 77) × (r.1.sent ≡ wallet.sent)
unfolding broadcast_and_record get_utxo_by_outpoint execute_broadcast mark_utxos_pending_spend
    record_transaction_result confirm_utxos_spent track_change accepted_txid add_utxo
broadcast_and_record_unrecorded = (refl, refl)

-- The broadcast is refused.
abbrev refused_events : Events
refused_events = record good_events { broadcast = none }

broadcast_failed-settled : ¬ IsUnsettled broadcast_failed
broadcast_failed-settled (inl e) = cc
broadcast_failed-settled (inr (inl e)) = cc
broadcast_failed-settled (inr (inr e)) = cc

pay-restores_example : (pay refused_events 600 (ok (1, ok payment)) wallet).1 ≡ wallet
unfolding broadcast_and_record execute_broadcast mark_utxos_pending_spend rollback_pending_spend
pay-restores_example =
    pay-restores refused_events 600 (ok (1, ok payment)) wallet broadcast_failed
      ((λ h. inr (refl, refl, refl)), ((λ h. inr (refl, refl, refl)), tt)) refl
      broadcast_failed-settled

abbrev faulty_events : Events
faulty_events = record good_events { mark_faults = some 1 }

abbrev joint_payment : BuiltTransaction
joint_payment = record payment { spent_outpoints = first_out ∷ second_out ∷ [] }

broadcast_and_record-mark_faults_example :
    ((broadcast_and_record faulty_events 1 600 joint_payment wallet).0 ≡ err database_error)
    × (get_spendable_utxos none
          (broadcast_and_record faulty_events 1 600 joint_payment wallet).1.store
        ≡ row 2 12 300 ∷ [])
unfolding get_spendable_utxos
broadcast_and_record-mark_faults_example =
    broadcast_and_record-mark_faults faulty_events 1 600 joint_payment wallet 1 none refl
      (omega arith)

abbrev an_account : Option ℕ
an_account = some 1

abbrev context : Context
context = record {
  is_valid_address = λ a. true;
  is_tauri = true;
  fee_rate = rate_1;
  events = good_events;
}

abbrev replying : Backend (BuildCommand Utxo) BackendReply
replying command = ok (record {
  raw_tx = 70;
  txid = 77;
  fee = 200;
  change = 200;
  change_address = 6;
  spent_outpoints = first_out ∷ [];
})

abbrev replying_keyed : Backend (BuildCommand ExtendedUtxo) BackendReply
replying_keyed command = ok (record {
  raw_tx = 70;
  txid = 77;
  fee = 200;
  change = 0;
  change_address = 6;
  spent_outpoints = first_out ∷ [];
})

abbrev recipient : RecipientOutput
recipient = record { address = 3; satoshis = 600 }
