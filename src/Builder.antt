-- ===== src/Builder.antt =====
-- The transaction builders (src/domain/transaction/builder.ts). Building and signing is a command
-- of the Tauri backend, so each builder takes the backend's answer as a function of the command.
-- The address and the keys go through unchanged; `txid`, `rawTx` and addresses stand as numbers.
pub mod Laws
use simply_sats.Prelude.{
  ℕ, ◌+◌, ◌-◌, Bool, true, false, not, List, [], ◌∷◌, map, ltb, ◌==◌, if◌then◌else◌, length, sum_by,
  Result, ok, err, ◌>>=◌,
}
use simply_sats.Types.{Utxo, ExtendedUtxo, Outpoint}
use simply_sats.Fees.{FeeRate, TxError, insufficient_funds, calculate_tx_fee}

pub record RecipientOutput : Type 0 where
  pub address : ℕ
  pub satoshis : ℕ

-- What every command that pays recipients is sent; `Input` is the shape of its inputs.
pub record BuildCommand (Input : Type 0) : Type 0 where
  pub outputs : List RecipientOutput
  pub selected_utxos : List Input
  pub total_input : ℕ
  pub fee_rate : FeeRate

pub record BackendReply : Type 0 where
  pub raw_tx : ℕ
  pub txid : ℕ
  pub fee : ℕ
  pub change : ℕ
  pub change_address : ℕ
  pub spent_outpoints : List Outpoint

pub record ConsolidationReply : Type 0 where
  pub raw_tx : ℕ
  pub txid : ℕ
  pub fee : ℕ
  pub output_sats : ℕ
  pub address : ℕ
  pub spent_outpoints : List Outpoint

-- What a builder throws; `backend` is a failed command.
pub data BuildError : Type 0 where
  requires_tauri need_two_utxos no_outputs backend : BuildError
  fee_error : TxError → BuildError

-- `null` where the app does not run under Tauri, and the command's answer otherwise.
abbrev pub Backend : Type 0 → Type 0 → Type 0
Backend Command Reply = Command → Result Reply BuildError

-- `result.tx` is always null and left out.
pub record BuiltTransaction : Type 0 where
  pub raw_tx : ℕ
  pub txid : ℕ
  pub fee : ℕ
  pub change : ℕ
  pub change_address : ℕ
  pub num_outputs : ℕ
  pub spent_outpoints : List Outpoint

-- `result.change > 0 ? recipients + 1 : recipients`
abbrev pub built : ℕ → BackendReply → BuiltTransaction
built recipients r = record {
  raw_tx = r.raw_tx;
  txid = r.txid;
  fee = r.fee;
  change = r.change;
  change_address = r.change_address;
  num_outputs = if ltb 0 r.change then recipients + 1 else recipients;
  spent_outpoints = r.spent_outpoints;
}

unfoldable pub build_p2pkh_tx :
    Bool
    → Backend (BuildCommand Utxo) BackendReply
    → RecipientOutput
    → List Utxo
    → ℕ
    → FeeRate
    → Result BuiltTransaction BuildError
build_p2pkh_tx false invoke output selected total rate = err requires_tauri
build_p2pkh_tx true invoke output selected total rate = do
  result ← invoke (record {
    outputs = output ∷ [];
    selected_utxos = selected;
    total_input = total;
    fee_rate = rate;
  })
  ok (built 1 result)

unfoldable pub build_multi_key_p2pkh_tx :
    Bool
    → Backend (BuildCommand ExtendedUtxo) BackendReply
    → RecipientOutput
    → List ExtendedUtxo
    → ℕ
    → FeeRate
    → Result BuiltTransaction BuildError
build_multi_key_p2pkh_tx false invoke output selected total rate = err requires_tauri
build_multi_key_p2pkh_tx true invoke output selected total rate = do
  result ← invoke (record {
    outputs = output ∷ [];
    selected_utxos = selected;
    total_input = total;
    fee_rate = rate;
  })
  ok (built 1 result)

unfoldable pub build_consolidation_tx :
    Bool
    → Backend (List Utxo × FeeRate) ConsolidationReply
    → List Utxo
    → FeeRate
    → Result ConsolidationReply BuildError
build_consolidation_tx is_tauri invoke utxos rate =
    if ltb (length utxos) 2
    then err need_two_utxos
    else if not is_tauri
    then err requires_tauri
    else invoke (utxos, rate)

pub record BuiltMultiOutput : Type 0 where
  pub transaction : BuiltTransaction
  pub open transaction use *
  pub total_sent : ℕ

abbrev pub lift_fee : Result ℕ TxError → Result ℕ BuildError
lift_fee (ok fee) = ok fee
lift_fee (err e) = err (fee_error e)

unfoldable pub build_multi_output_p2pkh_tx :
    Bool
    → Backend (BuildCommand ExtendedUtxo) BackendReply
    → List RecipientOutput
    → List ExtendedUtxo
    → ℕ
    → FeeRate
    → Result BuiltMultiOutput BuildError
unfolding calculate_tx_fee
build_multi_output_p2pkh_tx is_tauri invoke [] selected total rate = err no_outputs
build_multi_output_p2pkh_tx false invoke (o ∷ os) selected total rate = err requires_tauri
build_multi_output_p2pkh_tx true invoke (o ∷ os) selected total rate = do
  let total_sent : ℕ = sum_by (λ (p : RecipientOutput). p.satoshis) (o ∷ os)
  fee ← lift_fee (calculate_tx_fee (length selected) (length (o ∷ os) + 1) rate 0)
  if ltb total (total_sent + fee)
      then err (fee_error (insufficient_funds (total_sent + fee) total))
      else do
        result ← invoke (record {
          outputs = o ∷ os;
          selected_utxos = selected;
          total_input = total;
          fee_rate = rate;
        })
        ok (record { transaction = built (length (o ∷ os)) result; total_sent = total_sent })
