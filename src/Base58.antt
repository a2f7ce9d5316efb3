-- ===== src/Base58.antt =====
-- Base58 texts (src/domain/shared/base58.ts) and the locking script of an address
-- (`p2pkhLockingScriptHex` of src/domain/transaction/builder.ts). A text stands as its character codes.
pub mod Values
pub mod Watching
use simply_sats.Prelude.{
  ℕ, zero, suc, ◌+◌, ◌*◌, ◌/◌, ◌%◌, Bool, true, false, Option, none, some, List, [], ◌∷◌, ◌++◌,
  length, Result, ok, err, ◌>>=◌, ltb, ◌==◌, if◌then◌else◌,
}
use simply_sats.Hex.{HexText}
use simply_sats.Chain.{Bytes}
use simply_sats.Chain.Bytes.{reverse_bytes, slice, bytes_to_hex}

abbrev pub Text : Type 0
Text = List ℕ

abbrev pub base58_chars : Text
base58_chars =
    49 ∷ 50 ∷ 51 ∷ 52 ∷ 53 ∷ 54 ∷ 55 ∷ 56 ∷ 57 ∷ 65 ∷ 66 ∷ 67 ∷ 68 ∷ 69 ∷ 70 ∷ 71 ∷ 72 ∷ 74 ∷ 75
    ∷ 76 ∷ 77 ∷ 78 ∷ 80 ∷ 81 ∷ 82 ∷ 83 ∷ 84 ∷ 85 ∷ 86 ∷ 87 ∷ 88 ∷ 89 ∷ 90 ∷ 97 ∷ 98 ∷ 99 ∷ 100 ∷ 101
    ∷ 102 ∷ 103 ∷ 104 ∷ 105 ∷ 106 ∷ 107 ∷ 109 ∷ 110 ∷ 111 ∷ 112 ∷ 113 ∷ 114 ∷ 115 ∷ 116 ∷ 117 ∷ 118
    ∷ 119 ∷ 120 ∷ 121 ∷ 122 ∷ []

-- `chars.indexOf(char)`, where `none` is -1.
unfoldable pub index_of : ℕ → Text → Option ℕ
index_of c [] = none
index_of c (d ∷ ds) = elim (index_of c ds) [
  | none ↦ if c == d then some 0 else none
  | some i ↦ if c == d then some 0 else some (suc i)
]

-- What the code throws.
pub data Base58Error : Type 0 where
  invalid_character : Base58Error
  too_short : ℕ → Base58Error

-- `while (carry > 0)`; a round divides it, so its own value is fuel enough.
abbrev pub push_carry : ℕ → ℕ → Bytes
push_carry zero carry = []
push_carry (suc fuel) carry =
    let rest = push_carry fuel (carry / 256) in if ltb 0 carry then (carry % 256) ∷ rest else []

-- The bytes, lowest first, times 58 plus the carry.
unfoldable pub times_58 : ℕ → Bytes → Bytes
times_58 carry [] = push_carry carry carry
times_58 carry (b ∷ bs) = ((carry + b * 58) % 256) ∷ times_58 ((carry + b * 58) / 256) bs

-- The first loop; out of strict mode it skips the characters that Base58 does not have.
unfoldable pub decode_onto : Bool → Bytes → Text → Result Bytes Base58Error
unfolding times_58 index_of
decode_onto strict bytes [] = ok bytes
decode_onto strict bytes (c ∷ cs) = elim (index_of c base58_chars) [
  | none ↦ if strict then err invalid_character else decode_onto strict bytes cs
  | some v ↦ decode_onto strict (times_58 v bytes) cs
]

-- A zero byte for each leading '1'.
abbrev pub leading : Text → Bytes
leading [] = []
leading (c ∷ cs) = let more = leading cs in if c == 49 then 0 ∷ more else []

unfoldable pub base58_decode : Text → Bool → Result Bytes Base58Error
unfolding decode_onto
base58_decode str strict =
    decode_onto strict (0 ∷ []) str >>= λ bytes. ok (reverse_bytes (bytes ++ leading str))

unfoldable pub p2pkh_locking_script_hex : Text → Result HexText Base58Error
unfolding base58_decode
p2pkh_locking_script_hex address = base58_decode address false >>= λ decoded.
    if ltb (length decoded) 25
    then err (too_short (length decoded))
    else ok ((7 ∷ 6 ∷ 10 ∷ 9 ∷ 1 ∷ 4 ∷ bytes_to_hex (slice 1 21 decoded)) ++ (8 ∷ 8 ∷ 10 ∷ 12 ∷ []))
