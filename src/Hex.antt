-- ===== src/Hex.antt =====
-- Hex texts. A text stands as its digits, each a number below 16; `int2Hex` and `hex2Int` are those of
-- src/domain/locks/timelockScript.ts.
pub mod Digits
pub mod RoundTrip
use simply_sats.Prelude.{
  ℕ, zero, suc, ◌+◌, ◌*◌, ◌/◌, ◌%◌, Option, none, some, List, [], ◌∷◌, ◌++◌, length, ◌==◌,
  if◌then◌else◌,
}

abbrev pub HexText : Type 0
HexText = List ℕ

-- The digits of a positive number, in front of `out`; each round has one unit of fuel, and there are
-- fewer rounds than the number says.
unfoldable pub hex_digits : ℕ → ℕ → HexText → HexText
hex_digits zero n out = out
hex_digits (suc fuel) n out =
    let longer = hex_digits fuel (n / 16) ((n % 16) ∷ out) in if n == 0 then out else longer

-- `n.toString(16)` for a positive `n`
abbrev pub to_hex : ℕ → HexText
to_hex n = hex_digits n n []

-- `b.toString(16).padStart(2, '0')` for a byte
abbrev pub byte_hex : ℕ → HexText
byte_hex b = (b / 16) ∷ (b % 16) ∷ []

abbrev pub pad_even : HexText → HexText
pad_even ds = if length ds % 2 == 0 then ds else 0 ∷ ds

-- `(hex.match(/.{2}/g) || []).reverse().join('')`
unfoldable pub reverse_pairs : HexText → HexText
reverse_pairs [] = []
reverse_pairs (a ∷ []) = []
reverse_pairs (a ∷ b ∷ ds) = reverse_pairs ds ++ a ∷ b ∷ []

abbrev pub value_from : ℕ → HexText → ℕ
value_from n [] = n
value_from n (d ∷ ds) = value_from (n * 16 + d) ds

-- `parseInt(hex, 16)`; `none` is NaN.
abbrev pub parse_int : HexText → Option ℕ
parse_int [] = none
parse_int (d ∷ ds) = some (value_from 0 (d ∷ ds))

unfoldable pub int2_hex : ℕ → HexText
unfolding hex_digits reverse_pairs
int2_hex n = if n == 0 then 0 ∷ 0 ∷ [] else reverse_pairs (pad_even (to_hex n))

unfoldable pub hex2_int : HexText → Option ℕ
unfolding reverse_pairs
hex2_int hex = parse_int (reverse_pairs hex)
