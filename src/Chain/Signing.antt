-- ===== src/Chain/Signing.antt =====
-- Signing all inputs of a transaction, and its bytes (the steps that the four builders of
-- src/platform/crypto/transaction.ts share).
use simply_sats.Prelude.{ℕ, suc, List, [], ◌∷◌, map, Result, ok, ◌>>=◌}
use simply_sats.Hex.{HexText}
use simply_sats.Chain.{Bytes, ChainError, Crypto}
use simply_sats.Chain.Bytes.{hex_to_bytes}
use simply_sats.Chain.Scripts.{
  SighashInput, sighash_all_forkid, sequence, p2pkh_unlocking_script, compute_sighash, sign_hash,
}
use simply_sats.Chain.Serialize.{TxInput, TxOutput, serialize_outputs, serialize_transaction}

-- A coin to spend, with its texts.
pub record TxUtxo : Type 0 where
  pub txid : HexText
  pub vout : ℕ
  pub satoshis : ℕ
  pub script : HexText

pub record Keys : Type 0 where
  pub priv_key : Bytes
  pub pub_key : Bytes

abbrev pub to_sighash : TxUtxo → SighashInput
to_sighash u = record {
  txid = u.txid;
  vout = u.vout;
  script = hex_to_bytes u.script;
  satoshis = u.satoshis;
}

module _ (crypto : Crypto) where
  unfoldable pub sign_input :
      Keys → List SighashInput → Bytes → ℕ → TxUtxo → Result TxInput ChainError
  unfolding compute_sighash sign_hash
  sign_input keys all outputs_bytes i u = do
    sighash ← compute_sighash crypto all outputs_bytes i sighash_all_forkid
    sig ← sign_hash crypto keys.priv_key sighash
    script_sig ← p2pkh_unlocking_script sig keys.pub_key
    ok (record { txid = u.txid; vout = u.vout; script_sig = script_sig; sequence = sequence })

  -- The inputs from index `i` on; `keys_of` gives the keys of an input.
  unfoldable pub sign_inputs :
      {A : Type 0}
      → (A → TxUtxo)
      → (A → Result Keys ChainError)
      → List SighashInput
      → Bytes
      → ℕ
      → List A
      → Result (List TxInput) ChainError
  unfolding sign_input
  sign_inputs coin keys_of all outputs_bytes i [] = ok []
  sign_inputs coin keys_of all outputs_bytes i (x ∷ xs) = do
    keys ← keys_of x
    input ← sign_input keys all outputs_bytes i (coin x)
    inputs ← sign_inputs coin keys_of all outputs_bytes (suc i) xs
    ok (input ∷ inputs)

  unfoldable pub signed_transaction :
      {A : Type 0}
      → (A → TxUtxo)
      → (A → Result Keys ChainError)
      → List A
      → List TxOutput
      → Result Bytes ChainError
  unfolding sign_inputs serialize_outputs serialize_transaction
  signed_transaction coin keys_of utxos outputs = do
    outputs_bytes ← serialize_outputs outputs
    inputs ← sign_inputs coin keys_of (map (λ x. to_sighash (coin x)) utxos) outputs_bytes 0 utxos
    serialize_transaction inputs outputs
