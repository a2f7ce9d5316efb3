-- ===== src/Chain/Serialize.antt =====
-- The serialised transaction (src/platform/crypto/transaction.ts).
use simply_sats.Prelude.{ℕ, List, [], ◌∷◌, ◌++◌, length, Result, ok, ◌>>=◌}
use simply_sats.Hex.{HexText}
use simply_sats.Chain.{Bytes, ChainError, Crypto}
use simply_sats.Chain.Bytes.{
  write_uint32_le, write_uint64_le, write_var_int, reverse_bytes, bytes_to_hex, hex_to_bytes,
}
use simply_sats.Chain.Keys.{double_sha256}
use simply_sats.Chain.Scripts.{with_length, tx_version, locktime}

pub record TxInput : Type 0 where
  pub txid : HexText
  pub vout : ℕ
  pub script_sig : Bytes
  pub sequence : ℕ

pub record TxOutput : Type 0 where
  pub satoshis : ℕ
  pub script : Bytes

unfoldable pub write_input : TxInput → Result Bytes ChainError
write_input i = do
  script ← with_length i.script_sig
  ok (
      reverse_bytes (hex_to_bytes i.txid)
      ++ (write_uint32_le i.vout ++ (script ++ write_uint32_le i.sequence)))

unfoldable pub write_output : TxOutput → Result Bytes ChainError
write_output o = do script ← with_length o.script; ok (write_uint64_le o.satoshis ++ script)

abbrev pub write_all :
    {A : Type 0} → (A → Result Bytes ChainError) → List A → Result Bytes ChainError
write_all write [] = ok []
write_all write (x ∷ xs) = write x >>= λ b. write_all write xs >>= λ bs. ok (b ++ bs)

unfoldable pub serialize_outputs : List TxOutput → Result Bytes ChainError
unfolding write_output
serialize_outputs outputs = write_all write_output outputs

unfoldable pub serialize_transaction : List TxInput → List TxOutput → Result Bytes ChainError
unfolding write_input write_output
serialize_transaction inputs outputs = do
  input_count ← write_var_int (length inputs)
  input_bytes ← write_all write_input inputs
  output_count ← write_var_int (length outputs)
  output_bytes ← write_all write_output outputs
  ok (
      write_uint32_le tx_version
      ++ (input_count
          ++ (input_bytes ++ (output_count ++ (output_bytes ++ write_uint32_le locktime)))))

unfoldable pub compute_txid : Crypto → Bytes → HexText
unfolding double_sha256
compute_txid crypto raw_tx = bytes_to_hex (reverse_bytes (double_sha256 crypto raw_tx))
