-- ===== src/Chain/Bytes.antt =====
-- The byte helpers of src/platform/crypto/transaction.ts and src/platform/crypto/keys.ts.
use simply_sats.Prelude.{
  ℕ, zero, suc, ◌+◌, ◌-◌, ◌*◌, ◌/◌, ◌%◌, ◌^◌, List, [], ◌∷◌, ◌++◌, take, drop, Result, ok, err, ltb,
  leb, if◌then◌else◌,
}
use simply_sats.Hex.{HexText, byte_hex}
use simply_sats.Chain.{Bytes, ChainError, varint_too_large}

-- The low bytes of a number, the lowest first.
abbrev pub le_bytes : ℕ → ℕ → Bytes
le_bytes zero n = []
le_bytes (suc k) n = (n % 256) ∷ le_bytes k (n / 256)

unfoldable pub write_uint32_le : ℕ → Bytes
write_uint32_le value = le_bytes 4 value

-- Two writes of 32 bits: `value & 0xffffffff`, and the rest.
unfoldable pub write_uint64_le : ℕ → Bytes
write_uint64_le value = le_bytes 4 (value % 2 ^ 32) ++ le_bytes 4 (value / 2 ^ 32)

unfoldable pub write_var_int : ℕ → Result Bytes ChainError
write_var_int value =
    if ltb value 0xfd
    then ok (value ∷ [])
    else if leb value 0xffff
    then ok (0xfd ∷ le_bytes 2 value)
    else if leb value 0xffffffff
    then ok (0xfe ∷ le_bytes 4 value)
    else err varint_too_large

abbrev pub reverse_bytes : Bytes → Bytes
reverse_bytes [] = []
reverse_bytes (b ∷ bs) = reverse_bytes bs ++ (b ∷ [])

abbrev pub concat : List Bytes → Bytes
concat [] = []
concat (b ∷ bs) = b ++ concat bs

-- `bytes.slice(from, to)`
abbrev pub slice : ℕ → ℕ → Bytes → Bytes
slice from to bytes = take (to - from) (drop from bytes)

abbrev pub bytes_to_hex : Bytes → HexText
bytes_to_hex [] = []
bytes_to_hex (b ∷ bs) = byte_hex b ++ bytes_to_hex bs

-- `new Uint8Array(hex.length / 2)` rounds the length down, so an odd last digit is dropped.
abbrev pub hex_to_bytes : HexText → Bytes
hex_to_bytes [] = []
hex_to_bytes (d ∷ []) = []
hex_to_bytes (d ∷ e ∷ ds) = (d * 16 + e) ∷ hex_to_bytes ds
