-- ===== src/Tests/Chain.antt =====
-- Transactions, keys and addresses at concrete inputs.
use simply_sats.Prelude.{
  ℕ, zero, suc, ◌+◌, ◌<◌, ◌≡◌, refl, sym, ap, false, some, List, [], ◌∷◌, ◌++◌, map, length, take,
  All, ok, ◌>>=◌, or_value, ok-injective, arith,
}
use simply_sats.Hex.{HexText}
use simply_sats.Fees.{calculate_tx_fee, fee_from_bytes}
use simply_sats.Builder.{RecipientOutput}
use simply_sats.Chain.{Bytes, Crypto}
use simply_sats.Chain.Bytes.{write_uint32_le, write_uint64_le, write_var_int}
use simply_sats.Chain.Keys.{
  wif_to_private_key, private_key_to_address, public_key_to_address, hash160, double_sha256,
}
use simply_sats.Chain.Scripts.{
  address_to_locking_script, compact_to_der, compute_sighash, sign_hash,
}
use simply_sats.Chain.Serialize.{
  TxInput, TxOutput, serialize_transaction, serialize_outputs, write_input, write_output,
  compute_txid,
}
use simply_sats.Chain.Signing.{TxUtxo, sign_input, sign_inputs, signed_transaction}
use simply_sats.Chain.Building.{
  KeyedUtxo, BuiltTx, BuiltConsolidation, outpoint_of, build_p2pkh_tx, build_multi_key_p2pkh_tx,
  build_consolidation_tx, build_multi_output_p2pkh_tx, pay_one, pay_many,
}
use simply_sats.Chain.Signed.{IsSpendable, HasCompressedKeys}
use simply_sats.Chain.Paying.{Pays, sum_paid, change_recipients}
use simply_sats.Chain.Balances.{IsAccounted, build_p2pkh_tx-Pays}
use simply_sats.Chain.Batches.{build_multi_output_p2pkh_tx-Pays}
use simply_sats.Chain.Reading.{read_transaction}
use simply_sats.Chain.Reading.Transactions.{IsHex, read_transaction-serialize}
use simply_sats.Chain.Der.{read_der, be_value, read_der-compact_to_der}
use simply_sats.Chain.KeyTexts.{wif_payload}
use simply_sats.Base58.{Text, base58_decode, decode_onto, index_of, times_58}
use simply_sats.Base58.Values.{base58_value, base58_decode-value}
use simply_sats.Tests.Data.{rate_tenth}

abbrev copies : ℕ → ℕ → Bytes
copies zero b = []
copies (suc n) b = b ∷ copies n b

-- `n` bytes that are written alike.
abbrev hex_of : ℕ → HexText
hex_of zero = []
hex_of (suc n) = 10 ∷ 11 ∷ hex_of n

hex_of-IsHex : (n : ℕ) → IsHex n (hex_of n)
hex_of-IsHex zero = refl
hex_of-IsHex (suc n) = (omega arith, omega arith, hex_of-IsHex n)

abbrev key : Bytes
key = copies 32 7

abbrev crypto : Crypto
crypto = record {
  sha256 = λ b. b;
  ripemd160 = take 20;
  get_public_key = λ k. ok (2 ∷ key);
  sign = λ h k. ok (copies 64 200);
  encode = length;
  decode = λ a. ok (wif_payload key);
}

crypto-HasCompressedKeys : HasCompressedKeys crypto
crypto-HasCompressedKeys k p e = ap length (sym (ok-injective e))

read_der-compact_to_der_example :
    read_der (compact_to_der (copies 64 200))
    ≡ some (be_value (copies 32 200), be_value (copies 32 200))
read_der-compact_to_der_example = read_der-compact_to_der (copies 64 200) refl

abbrev tx_input : TxInput
tx_input = record { txid = hex_of 32; vout = 1; script_sig = copies 3 9; sequence = 7 }

abbrev tx_output : TxOutput
tx_output = record { satoshis = 5000000000; script = copies 25 3 }

read_transaction-serialize_example :
    (serialize_transaction (tx_input ∷ []) (tx_output ∷ tx_output ∷ []) >>= λ raw.
    ok (read_transaction raw))
    ≡ ok (some (tx_input ∷ [], tx_output ∷ tx_output ∷ []))
read_transaction-serialize_example =
    read_transaction-serialize (tx_input ∷ []) (tx_output ∷ tx_output ∷ [])
      ((hex_of-IsHex 32, omega arith, omega arith, omega arith), tt)
      ((omega arith, omega arith), ((omega arith, omega arith), tt)) (omega arith) (omega arith)

abbrev utxo : ℕ → TxUtxo
utxo n = record { txid = hex_of 32; vout = n; satoshis = 6000; script = hex_of 25 }

abbrev to : RecipientOutput
to = record { address = 70; satoshis = 5000 }

abbrev utxos : List TxUtxo
utxos = utxo 0 ∷ utxo 1 ∷ []

utxos-IsSpendable : All IsSpendable utxos
utxos-IsSpendable = ((hex_of-IsHex 32, omega arith), ((hex_of-IsHex 32, omega arith), tt))

abbrev no_tx : BuiltTx
no_tx = record {
  raw_tx = [];
  txid = [];
  fee = 0;
  change = 0;
  change_address = 0;
  num_outputs = 0;
  spent_outpoints = [];
}

abbrev paid : BuiltTx
paid = or_value no_tx (build_p2pkh_tx crypto 80 to utxos 12000 rate_tenth)

paid_ok : build_p2pkh_tx crypto 80 to utxos 12000 rate_tenth ≡ ok paid
unfolding build_p2pkh_tx pay_one wif_to_private_key private_key_to_address public_key_to_address
    hash160 calculate_tx_fee fee_from_bytes address_to_locking_script signed_transaction
    serialize_outputs write_output write_uint64_le write_var_int sign_inputs sign_input
    compute_sighash double_sha256 write_uint32_le sign_hash compact_to_der serialize_transaction
    write_input compute_txid
paid_ok = refl

build_p2pkh_tx-Pays_example :
    Pays crypto paid.raw_tx
      (map outpoint_of utxos)
      (to ∷ change_recipients paid.change_address paid.change)
    × IsAccounted 12000 5000 paid.fee paid.change
build_p2pkh_tx-Pays_example =
    build_p2pkh_tx-Pays crypto crypto-HasCompressedKeys 80 to utxos 12000 rate_tenth paid
      utxos-IsSpendable (omega arith) (omega arith) paid_ok

abbrev keyed : List KeyedUtxo
keyed = record { utxo = utxo 0; wif = 80 } ∷ record { utxo = utxo 3; wif = 81 } ∷ []

abbrev paid_keyed : BuiltTx
paid_keyed = or_value no_tx (build_multi_key_p2pkh_tx crypto 80 to keyed 5050 rate_tenth)

paid_keyed_ok : build_multi_key_p2pkh_tx crypto 80 to keyed 5050 rate_tenth ≡ ok paid_keyed
unfolding build_multi_key_p2pkh_tx pay_one wif_to_private_key private_key_to_address
    public_key_to_address hash160 calculate_tx_fee fee_from_bytes address_to_locking_script
    signed_transaction serialize_outputs write_output write_uint64_le write_var_int sign_inputs
    sign_input compute_sighash double_sha256 write_uint32_le sign_hash compact_to_der
    serialize_transaction write_input compute_txid
paid_keyed_ok = refl

abbrev no_consolidation : BuiltConsolidation
no_consolidation = record {
  raw_tx = [];
  txid = [];
  fee = 0;
  output_sats = 0;
  address = 0;
  spent_outpoints = [];
}

abbrev merged : BuiltConsolidation
merged = or_value no_consolidation (build_consolidation_tx crypto 80 utxos rate_tenth)

merged_ok : build_consolidation_tx crypto 80 utxos rate_tenth ≡ ok merged
unfolding build_consolidation_tx wif_to_private_key private_key_to_address public_key_to_address
    hash160 calculate_tx_fee fee_from_bytes address_to_locking_script signed_transaction
    serialize_outputs write_output write_uint64_le write_var_int sign_inputs sign_input
    compute_sighash double_sha256 write_uint32_le sign_hash compact_to_der serialize_transaction
    write_input compute_txid
merged_ok = refl

abbrev payees : List RecipientOutput
payees = to ∷ record { address = 71; satoshis = 900 } ∷ []

abbrev paid_many : BuiltTx × ℕ
paid_many =
    or_value (no_tx, 0) (build_multi_output_p2pkh_tx crypto 80 payees utxos 12000 rate_tenth)

paid_many_ok :
    build_multi_output_p2pkh_tx crypto 80 payees utxos 12000 rate_tenth
    ≡ ok (paid_many.0, paid_many.1)
unfolding build_multi_output_p2pkh_tx pay_many wif_to_private_key private_key_to_address
    public_key_to_address hash160 calculate_tx_fee fee_from_bytes address_to_locking_script
    signed_transaction serialize_outputs write_output write_uint64_le write_var_int sign_inputs
    sign_input compute_sighash double_sha256 write_uint32_le sign_hash compact_to_der
    serialize_transaction write_input compute_txid
paid_many_ok = refl

build_multi_output_p2pkh_tx-Pays_example :
    Pays crypto paid_many.0.raw_tx
      (map outpoint_of utxos)
      (payees ++ change_recipients paid_many.0.change_address paid_many.0.change)
    × (sum_paid payees + paid_many.0.fee + paid_many.0.change ≡ 12000)
    × (paid_many.0.num_outputs
        ≡ length (payees ++ change_recipients paid_many.0.change_address paid_many.0.change))
build_multi_output_p2pkh_tx-Pays_example =
    build_multi_output_p2pkh_tx-Pays crypto crypto-HasCompressedKeys 80 payees utxos 12000
      rate_tenth paid_many.0 paid_many.1 utxos-IsSpendable (omega arith) (omega arith) (omega arith)
      paid_many_ok

-- The address of the first coins of the chain, "1A1zP1eP5QGefi2DMPTfTL5SLmv7DivfNa".
abbrev genesis : Text
genesis =
    49 ∷ 65 ∷ 49 ∷ 122 ∷ 80 ∷ 49 ∷ 101 ∷ 80 ∷ 53 ∷ 81 ∷ 71 ∷ 101 ∷ 102 ∷ 105 ∷ 50 ∷ 68 ∷ 77 ∷ 80
    ∷ 84 ∷ 102 ∷ 84 ∷ 76 ∷ 53 ∷ 83 ∷ 76 ∷ 109 ∷ 118 ∷ 55 ∷ 68 ∷ 105 ∷ 118 ∷ 102 ∷ 78 ∷ 97 ∷ []

abbrev genesis_bytes : Bytes
genesis_bytes = or_value [] (base58_decode genesis false)

genesis_ok : base58_decode genesis false ≡ ok genesis_bytes
unfolding base58_decode decode_onto index_of times_58
genesis_ok = refl

genesis_length : length genesis_bytes ≡ 25
unfolding base58_decode decode_onto index_of times_58
genesis_length = refl

base58_decode-value_example :
    (be_value genesis_bytes ≡ base58_value 0 genesis) × All (λ b. b < 256) genesis_bytes
base58_decode-value_example = base58_decode-value genesis false genesis_bytes genesis_ok

abbrev library : Crypto
library = record crypto { decode = λ a. ok (take 21 genesis_bytes) }
