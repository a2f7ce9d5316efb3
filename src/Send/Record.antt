-- ===== src/Send/Record.antt =====
-- The shared flows: `validateSendRequest`, `executeBroadcast`, `recordTransactionResult` and the
-- transaction in `consolidateUtxos`.
use simply_sats.Prelude.{
  ℕ, ◌-◌, Bool, true, ◌&&◌, not, Option, none, some, List, [], ◌∷◌, ltb, ◌==◌, if◌then◌else◌,
  Result, ok, err,
}
use simply_sats.Types.{Outpoint}
use simply_sats.Store.Defs.{Store, DbError, basket_default}
use simply_sats.Store.Pending.{
  mark_utxos_pending_spend, confirm_utxos_spent, rollback_pending_spend,
}
use simply_sats.Store.Adding.{NewUtxo, add_utxo, no_fault}

-- The codes of src/services/errors.ts that a send can return.
pub data ErrorCode : Type 0 where
  invalid_params internal_error insufficient_funds invalid_address invalid_amount : ErrorCode
  broadcast_failed database_error broadcast_succeeded_db_failed invalid_state : ErrorCode
  utxo_stuck_in_pending : ErrorCode

-- How `addUTXO` of the change ends: well, on a duplicate key, or on another error.
pub data AddAnswer : Type 0 where
  added duplicate failed : AddAnswer

pub record Events : Type 0 where
  -- The clock.
  pub now : ℕ
  -- `broadcastTransaction`: it throws, or returns a text.
  pub broadcast : Option ℕ
  -- `/^[0-9a-fA-F]{64}$/` on texts.
  pub is_txid : ℕ → Bool
  -- How many statements of each loop succeed (`none`: all).
  pub mark_faults : Option ℕ
  pub rollback_faults : Option ℕ
  pub confirm_faults : Option ℕ
  pub add_answer : AddAnswer
  -- `upsertTransaction` fails, which `recordSentTransaction` only logs.
  pub record_fails : Bool
  pub commit_fails : Bool
  -- `p2pkhLockingScriptHex`, which throws on a malformed address.
  pub script_of : ℕ → Option ℕ

-- What `recordSentTransaction` is called with; `amount` is what is negated in the source.
pub record SentTransaction : Type 0 where
  pub txid : ℕ
  pub raw_tx : ℕ
  pub amount : Option ℕ
  pub account : Option ℕ

-- `sent` are the transactions that `recordSentTransaction` wrote, the last one first.
pub record Wallet : Type 0 where
  pub store : Store
  pub sent : List SentTransaction

-- `recordSentTransaction`, which never throws.
abbrev pub recorded : Bool → SentTransaction → List SentTransaction → List SentTransaction
recorded fails tx sent = if fails then sent else tx ∷ sent

abbrev pub max_satoshis : ℕ
max_satoshis = 2_100_000_000_000_000

-- A whole number of satoshis is finite and not negative.
unfoldable pub validate_send_request : (ℕ → Bool) → ℕ → ℕ → Result (Unit {0}) ErrorCode
validate_send_request is_valid_address to_address satoshis =
    if satoshis == 0
    then err invalid_amount
    else if ltb max_satoshis satoshis
    then err invalid_amount
    else if is_valid_address to_address
    then ok tt
    else err invalid_address

-- The txid that a broadcast yields: not empty, and of the right form.
unfoldable pub accepted_txid : Events → Option ℕ
accepted_txid ev = elim ev.broadcast [
  | none ↦ none
  | some t ↦ if not (t == 0) && ev.is_txid t then some t else none
]

abbrev pub after_rollback : Result (Unit {0}) DbError × Store → Result ℕ ErrorCode × Store
after_rollback (ok _, s) = (err broadcast_failed, s)
after_rollback (err _, s) = (err utxo_stuck_in_pending, s)

abbrev pub after_broadcast : Events → List Outpoint → Option ℕ → Store → Result ℕ ErrorCode × Store
after_broadcast ev outpoints (some txid) s = (ok txid, s)
after_broadcast ev outpoints none s =
    after_rollback (rollback_pending_spend ev.rollback_faults outpoints s)

abbrev pub after_mark :
    Events → List Outpoint → Result (Unit {0}) DbError × Store → Result ℕ ErrorCode × Store
after_mark ev outpoints (err _, s) = (err database_error, s)
after_mark ev outpoints (ok _, s) = after_broadcast ev outpoints (accepted_txid ev) s

unfoldable pub execute_broadcast : Events → ℕ → List Outpoint → Store → Result ℕ ErrorCode × Store
unfolding accepted_txid
execute_broadcast ev pending_txid outpoints s =
    after_mark ev outpoints
      (mark_utxos_pending_spend ev.now ev.mark_faults outpoints pending_txid s)

-- The output that comes back to the wallet.
abbrev pub own_output : Events → ℕ → ℕ → ℕ → ℕ → ℕ → NewUtxo
own_output ev txid vout satoshis script address = record {
  at = record { txid = txid; vout = vout };
  satoshis = satoshis;
  locking_script = script;
  address = some address;
  basket = basket_default;
  spendable = true;
  created_at = ev.now;
  tags = [];
}

-- `none`: the transaction throws.
abbrev pub track_output : AddAnswer → Option ℕ → NewUtxo → Store → Option Store
track_output added account u s = some (add_utxo no_fault u account s).1
track_output duplicate account u s = some s
track_output failed account u s = none

abbrev pub with_script : Option ℕ → (ℕ → Option Store) → Option Store
with_script none k = none
with_script (some script) k = k script

-- `if (change > 0)`
unfoldable pub track_change : Events → ℕ → ℕ → ℕ → ℕ → Option ℕ → Store → Option Store
track_change ev txid num_outputs change change_address account s =
    if ltb 0 change
    then with_script (ev.script_of change_address) (λ script.
      track_output ev.add_answer account
        (own_output ev txid (num_outputs - 1) change script change_address) s)
    else some s

abbrev pub after_confirm : (Store → Option Store) → Result (Unit {0}) DbError × Store → Option Store
after_confirm track (err _, s) = none
after_confirm track (ok _, s) = track s

-- `withTransaction`: what throws inside, or a COMMIT that fails, leaves the tables as they were.
abbrev pub with_transaction :
    Events → SentTransaction → Option Store → Wallet → Result (Unit {0}) ErrorCode × Wallet
with_transaction ev tx none w = (err broadcast_succeeded_db_failed, w)
with_transaction ev tx (some s) w =
    if ev.commit_fails
    then (err broadcast_succeeded_db_failed, w)
    else (ok tt, record { store = s; sent = recorded ev.record_fails tx w.sent })

unfoldable pub record_transaction_result :
    Events
    → SentTransaction
    → ℕ
    → ℕ
    → ℕ
    → List Outpoint
    → Wallet
    → Result (Unit {0}) ErrorCode × Wallet
unfolding track_change
record_transaction_result ev tx num_outputs change change_address outpoints w =
    with_transaction ev tx
      (after_confirm (track_change ev tx.txid num_outputs change change_address tx.account)
        (confirm_utxos_spent ev.now ev.confirm_faults outpoints tx.txid w.store))
      w

-- The same for a consolidation, whose only output is the wallet's.
unfoldable pub record_consolidation :
    Events → SentTransaction → ℕ → ℕ → List Outpoint → Wallet → Result (Unit {0}) ErrorCode × Wallet
record_consolidation ev tx output_sats address outpoints w =
    with_transaction ev tx
      (after_confirm
        (λ s. with_script (ev.script_of address) λ script.
          track_output ev.add_answer tx.account (own_output ev tx.txid 0 output_sats script address)
            s)
        (confirm_utxos_spent ev.now ev.confirm_faults outpoints tx.txid w.store))
      w
