-- ===== src/Send/Payments.antt =====
-- What the payments share, and `sendBSV`, `sendBSVMultiKey` and `sendBSVMultiKeyFromStore`.
use simply_sats.Prelude.{
  ℕ, ◌+◌, Bool, true, false, Option, none, some, List, [], ◌∷◌, if◌then◌else◌, Result, ok, err,
  ◌>>=◌, ◌>>◌,
}
use simply_sats.Types.{Utxo, ExtendedUtxo}
use simply_sats.Coins.{
  CoinSelectionResult, select_coins, select_coins_multi_key, default_coin_selection_buffer,
}
use simply_sats.Fees.{FeeRate}
use simply_sats.Builder.{
  RecipientOutput, BuildCommand, BackendReply, Backend, BuildError, BuiltTransaction, built,
  build_p2pkh_tx, build_multi_key_p2pkh_tx,
}
use simply_sats.Store.Defs.{Store}
use simply_sats.Send.Record.{
  ErrorCode, internal_error, insufficient_funds, invalid_state, Events, Wallet,
  validate_send_request, execute_broadcast, record_transaction_result,
}

-- What a send finds: the address check, the platform, `getFeeRate()`, and the answers to come.
pub record Context : Type 0 where
  pub is_valid_address : ℕ → Bool
  pub is_tauri : Bool
  pub fee_rate : FeeRate
  pub events : Events

-- `StoreBackedExtendedUTXO`, and the command that resolves each input's key in Rust. The signers'
-- descriptors go through to the command unread.
pub record StoreBackedUtxo : Type 0 where
  pub utxo : Utxo
  pub open utxo use *
  pub address : ℕ

pub record DerivedSigner : Type 0 where
  pub address : ℕ
  pub sender_pubkey : Option ℕ
  pub invoice_number : Option ℕ
  pub legacy_wif : Option ℕ

pub record ResolvedCommand : Type 0 where
  pub command : BuildCommand StoreBackedUtxo
  pub derived_signers : List DerivedSigner

abbrev pub after_record : ℕ → Result (Unit {0}) ErrorCode × Wallet → Result ℕ ErrorCode × Wallet
after_record txid (ok _, w) = (ok txid, w)
after_record txid (err e, w) = (err e, w)

-- What follows the broadcast; `amount` is what the recipients get.
abbrev pub record_broadcast :
    Events
    → ℕ
    → ℕ
    → BuiltTransaction
    → Wallet
    → Result ℕ ErrorCode × Store
    → Result ℕ ErrorCode × Wallet
record_broadcast ev account amount b w (err e, s) = (err e, record w { store = s })
record_broadcast ev account amount b w (ok txid, s) = after_record txid (
    record_transaction_result ev
      (record {
        txid = txid;
        raw_tx = b.raw_tx;
        amount = some (amount + b.fee);
        account = some account;
      })
      b.num_outputs b.change b.change_address b.spent_outpoints (record w { store = s }))

-- The common end of all payments, once the transaction is built.
unfoldable pub broadcast_and_record :
    Events → ℕ → ℕ → BuiltTransaction → Wallet → Result ℕ ErrorCode × Wallet
broadcast_and_record ev account amount b w =
    record_broadcast ev account amount b w (execute_broadcast ev b.txid b.spent_outpoints w.store)

-- A build that throws is reported as an internal error.
abbrev pub after_build :
    Events → ℕ → ℕ → Result BuiltTransaction BuildError → Wallet → Result ℕ ErrorCode × Wallet
after_build ev account amount (err e) w = (err internal_error, w)
after_build ev account amount (ok b) w = broadcast_and_record ev account amount b w

-- The coins, if they are sufficient.
abbrev pub sufficient_coins {ℓ} :
    {A : Type ℓ} → CoinSelectionResult A → Result (List A × ℕ) ErrorCode
sufficient_coins r = if r.sufficient then ok (r.selected, r.total) else err insufficient_funds

abbrev pub or_fail {ℓ} : {A : Type ℓ} → Option A → ErrorCode → Result A ErrorCode
or_fail none e = err e
or_fail (some a) e = ok a

-- A payment up to the build: the account, and the built transaction or the build's error.
abbrev pub Prepared : Type 0
Prepared = Result (ℕ × Result BuiltTransaction BuildError) ErrorCode

abbrev pub pay : Events → ℕ → Prepared → Wallet → Result ℕ ErrorCode × Wallet
pay ev amount (err e) w = (err e, w)
pay ev amount (ok (account, b)) w = after_build ev account amount b w

unfoldable pub send_bsv :
    Context
    → Backend (BuildCommand Utxo) BackendReply
    → RecipientOutput
    → List Utxo
    → Option ℕ
    → Wallet
    → Result ℕ ErrorCode × Wallet
unfolding validate_send_request
send_bsv c invoke to utxos account_id = pay c.events to.satoshis do
  validate_send_request c.is_valid_address to.address to.satoshis
  account ← or_fail account_id invalid_state
  (inputs, total) ←
      sufficient_coins
        (select_coins (λ u. u.satoshis) utxos to.satoshis default_coin_selection_buffer)
  ok (account, build_p2pkh_tx c.is_tauri invoke to inputs total c.fee_rate)

unfoldable pub send_bsv_multi_key :
    Context
    → Backend (BuildCommand ExtendedUtxo) BackendReply
    → RecipientOutput
    → List ExtendedUtxo
    → Option ℕ
    → Wallet
    → Result ℕ ErrorCode × Wallet
unfolding validate_send_request
send_bsv_multi_key c invoke to utxos account_id = pay c.events to.satoshis do
  validate_send_request c.is_valid_address to.address to.satoshis
  account ← or_fail account_id invalid_state
  (inputs, total) ←
      sufficient_coins (select_coins_multi_key utxos to.satoshis default_coin_selection_buffer)
  ok (account, build_multi_key_p2pkh_tx c.is_tauri invoke to inputs total c.fee_rate)

abbrev pub require : Bool → ErrorCode → Result (Unit {0}) ErrorCode
require true e = ok tt
require false e = err e

abbrev pub built_by : ℕ → Result BackendReply BuildError → Result BuiltTransaction BuildError
built_by recipients r = r >>= λ reply. ok (built recipients reply)

unfoldable pub send_bsv_multi_key_from_store :
    Context
    → Backend ResolvedCommand BackendReply
    → RecipientOutput
    → List StoreBackedUtxo
    → List DerivedSigner
    → Option ℕ
    → Wallet
    → Result ℕ ErrorCode × Wallet
unfolding validate_send_request
send_bsv_multi_key_from_store c invoke to utxos signers account_id = pay c.events to.satoshis do
  require c.is_tauri invalid_state
  validate_send_request c.is_valid_address to.address to.satoshis
  account ← or_fail account_id invalid_state
  (inputs, total) ←
      sufficient_coins
        (select_coins (λ u. u.satoshis) utxos to.satoshis default_coin_selection_buffer)
  ok (
    account,
    built_by 1 (
        invoke (record {
          command = record {
            outputs = to ∷ [];
            selected_utxos = inputs;
            total_input = total;
            fee_rate = c.fee_rate;
          };
          derived_signers = signers;
        })),
  )
