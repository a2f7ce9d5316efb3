-- ===== src/Chain/Scripts.antt =====
-- Scripts and signatures (src/platform/crypto/transaction.ts).
use simply_sats.Prelude.{
  ℕ, zero, suc, ◌+◌, List, [], ◌∷◌, ◌++◌, length, map, Result, ok, err, ◌>>=◌, leb, if◌then◌else◌,
}
use simply_sats.Hex.{HexText}
use simply_sats.Chain.{Bytes, ChainError, no_such_input, Crypto}
use simply_sats.Chain.Bytes.{
  write_uint32_le, write_uint64_le, write_var_int, reverse_bytes, concat, slice, hex_to_bytes,
}
use simply_sats.Chain.Keys.{double_sha256}

abbrev pub sighash_all_forkid : ℕ
sighash_all_forkid = 0x41

abbrev pub tx_version : ℕ
tx_version = 1

abbrev pub sequence : ℕ
sequence = 0xffffffff

abbrev pub locktime : ℕ
locktime = 0

abbrev pub p2pkh_locking_script : Bytes → Bytes
p2pkh_locking_script pub_key_hash =
    concat ((0x76 ∷ 0xa9 ∷ 0x14 ∷ []) ∷ pub_key_hash ∷ (0x88 ∷ 0xac ∷ []) ∷ [])

-- A length in front of the bytes it counts.
abbrev pub with_length : Bytes → Result Bytes ChainError
with_length bytes = write_var_int (length bytes) >>= λ n. ok (n ++ bytes)

abbrev pub p2pkh_unlocking_script : Bytes → Bytes → Result Bytes ChainError
p2pkh_unlocking_script signature pub_key = do
  sig ← with_length (signature ++ (sighash_all_forkid ∷ []))
  key ← with_length pub_key
  ok (sig ++ key)

-- The txid in the order it is displayed in.
pub record SighashInput : Type 0 where
  pub txid : HexText
  pub vout : ℕ
  pub script : Bytes
  pub satoshis : ℕ

abbrev pub outpoint_bytes : SighashInput → Bytes
outpoint_bytes inp = reverse_bytes (hex_to_bytes inp.txid) ++ write_uint32_le inp.vout

abbrev pub input_at : List SighashInput → ℕ → Result SighashInput ChainError
input_at [] n = err no_such_input
input_at (i ∷ is) zero = ok i
input_at (i ∷ is) (suc n) = input_at is n

-- The leading zeros but the last byte go, and a high first byte gets a zero in front.
abbrev pub pad_high : Bytes → Bytes
pad_high [] = []
pad_high (b ∷ bs) = if leb 0x80 b then 0 ∷ b ∷ bs else b ∷ bs

abbrev pub strip : Bytes → Bytes
strip [] = []
strip (b ∷ []) = b ∷ []
strip (zero ∷ c ∷ bs) = strip (c ∷ bs)
strip (suc b ∷ c ∷ bs) = suc b ∷ c ∷ bs

abbrev pub encode_integer : Bytes → Bytes
encode_integer bytes = pad_high (strip bytes)

unfoldable pub compact_to_der : Bytes → Bytes
compact_to_der compact =
    let r = encode_integer (slice 0 32 compact) in
    let s = encode_integer (slice 32 64 compact) in
    (0x30 ∷ (2 + length r + 2 + length s) ∷ 2 ∷ length r ∷ r) ++ (2 ∷ length s ∷ s)

module _ (crypto : Crypto) where
  unfoldable pub address_to_locking_script : ℕ → Result Bytes ChainError
  address_to_locking_script address = do
    decoded ← crypto.decode address
    ok (p2pkh_locking_script (slice 1 21 decoded))

  unfoldable pub compute_sighash : List SighashInput → Bytes → ℕ → ℕ → Result Bytes ChainError
  unfolding double_sha256
  compute_sighash inputs outputs input_index hash_type = do
    input ← input_at inputs input_index
    script_code ← with_length input.script
    ok (
        double_sha256 crypto (
          concat (
            write_uint32_le tx_version
            ∷ double_sha256 crypto (concat (map outpoint_bytes inputs))
            ∷ double_sha256 crypto (concat (map (λ i. write_uint32_le sequence) inputs))
            ∷ outpoint_bytes input
            ∷ script_code
            ∷ write_uint64_le input.satoshis
            ∷ write_uint32_le sequence
            ∷ double_sha256 crypto outputs
            ∷ write_uint32_le locktime
            ∷ write_uint32_le hash_type
            ∷ [])))

  unfoldable pub sign_hash : Bytes → Bytes → Result Bytes ChainError
  unfolding compact_to_der
  sign_hash priv_key hash = do compact ← crypto.sign hash priv_key; ok (compact_to_der compact)
