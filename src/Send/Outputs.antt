-- ===== src/Send/Outputs.antt =====
-- `sendBSVMultiOutput` and `sendBSVMultiOutputFromStore`.
use simply_sats.Prelude.{
  ℕ, Bool, not, Option, List, [], ◌∷◌, ltb, length, sum_by, Result, ok, err, ◌>>=◌, ◌>>◌,
}
use simply_sats.Types.{ExtendedUtxo}
use simply_sats.Coins.{select_coins, select_coins_multi_key, default_coin_selection_buffer}
use simply_sats.Builder.{
  RecipientOutput, BuildCommand, BackendReply, Backend, BuildError, BuiltTransaction,
  BuiltMultiOutput, build_multi_output_p2pkh_tx,
}
use simply_sats.Send.Record.{
  ErrorCode, invalid_params, invalid_state, Wallet, validate_send_request,
}
use simply_sats.Send.Payments.{
  Context, StoreBackedUtxo, DerivedSigner, ResolvedCommand, sufficient_coins, or_fail, pay, require,
  built_by,
}

-- Validates the outputs in order, up to the first bad one.
unfoldable pub validate_outputs : (ℕ → Bool) → List RecipientOutput → Result (Unit {0}) ErrorCode
unfolding validate_send_request
validate_outputs valid [] = ok tt
validate_outputs valid (o ∷ os) =
    let rest = validate_outputs valid os in validate_send_request valid o.address o.satoshis >> rest

abbrev pub total_of : List RecipientOutput → ℕ
total_of os = sum_by (λ o. o.satoshis) os

abbrev pub max_outputs : ℕ
max_outputs = 100

-- The checks that both multi-output sends begin with.
abbrev pub check_outputs : (ℕ → Bool) → List RecipientOutput → Result (Unit {0}) ErrorCode
check_outputs valid os = do
  require (ltb 0 (length os)) invalid_state
  require (not (ltb max_outputs (length os))) invalid_params
  validate_outputs valid os

abbrev pub as_payment : Result BuiltMultiOutput BuildError → Result BuiltTransaction BuildError
as_payment (ok b) = ok b.transaction
as_payment (err e) = err e

unfoldable pub send_bsv_multi_output :
    Context
    → Backend (BuildCommand ExtendedUtxo) BackendReply
    → List RecipientOutput
    → List ExtendedUtxo
    → Option ℕ
    → Wallet
    → Result ℕ ErrorCode × Wallet
unfolding validate_outputs
send_bsv_multi_output c invoke os utxos account_id = pay c.events (total_of os) do
  check_outputs c.is_valid_address os
  account ← or_fail account_id invalid_state
  (inputs, total) ←
      sufficient_coins (select_coins_multi_key utxos (total_of os) default_coin_selection_buffer)
  ok (
    account,
    as_payment (build_multi_output_p2pkh_tx c.is_tauri invoke os inputs total c.fee_rate),
  )

unfoldable pub send_bsv_multi_output_from_store :
    Context
    → Backend ResolvedCommand BackendReply
    → List RecipientOutput
    → List StoreBackedUtxo
    → List DerivedSigner
    → Option ℕ
    → Wallet
    → Result ℕ ErrorCode × Wallet
unfolding validate_outputs
send_bsv_multi_output_from_store c invoke os utxos signers account_id =
    pay c.events (total_of os) do
      require c.is_tauri invalid_state
      check_outputs c.is_valid_address os
      account ← or_fail account_id invalid_state
      (inputs, total) ←
          sufficient_coins
            (select_coins (λ u. u.satoshis) utxos (total_of os) default_coin_selection_buffer)
      ok (
        account,
        built_by (length os) (
            invoke (record {
              command = record {
                outputs = os;
                selected_utxos = inputs;
                total_input = total;
                fee_rate = c.fee_rate;
              };
              derived_signers = signers;
            })),
      )
