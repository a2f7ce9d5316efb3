-- ===== src/Locks/Asm.antt =====
-- The assembler of src/domain/locks/timelockScript.ts. A source text stands split into its tokens:
-- the opcodes of `OPCODE_MAP` and hex texts; the token "0" is the hex text of that one digit. Other
-- `OP_` words, on which the source throws, have no constructor: the template has none.
use simply_sats.Prelude.{
  ℕ, ◌*◌, ◌/◌, ◌%◌, List, [], ◌∷◌, ◌++◌, length, Result, ok, err, ◌>>=◌, ◌==◌, leb, ◌&&◌,
  if◌then◌else◌,
}
use simply_sats.Hex.{HexText, byte_hex, to_hex}

pub data Token : Type 0 where
  op_0 : Token
  op_1 : Token
  op_2 : Token
  op_3 : Token
  op_4 : Token
  op_5 : Token
  op_6 : Token
  op_7 : Token
  op_8 : Token
  op_9 : Token
  op_nop : Token
  op_if : Token
  op_else : Token
  op_endif : Token
  op_verify : Token
  op_drop : Token
  op_nip : Token
  op_pick : Token
  op_roll : Token
  op_swap : Token
  op_cat : Token
  op_split : Token
  op_num2bin : Token
  op_bin2num : Token
  op_size : Token
  op_equal : Token
  op_equalverify : Token
  op_add : Token
  op_sub : Token
  op_mul : Token
  op_div : Token
  op_mod : Token
  op_lessthan : Token
  op_greaterthan : Token
  op_greaterthanorequal : Token
  op_hash160 : Token
  op_hash256 : Token
  op_checksig : Token
  hex : HexText → Token

-- The values of `OPCODE_MAP`, and 0 for a hex text.
abbrev pub opcode_map : Token → ℕ
opcode_map op_0 = 0
opcode_map op_1 = 81
opcode_map op_2 = 82
opcode_map op_3 = 83
opcode_map op_4 = 84
opcode_map op_5 = 85
opcode_map op_6 = 86
opcode_map op_7 = 87
opcode_map op_8 = 88
opcode_map op_9 = 89
opcode_map op_nop = 97
opcode_map op_if = 99
opcode_map op_else = 103
opcode_map op_endif = 104
opcode_map op_verify = 105
opcode_map op_drop = 117
opcode_map op_nip = 119
opcode_map op_pick = 121
opcode_map op_roll = 122
opcode_map op_swap = 124
opcode_map op_cat = 126
opcode_map op_split = 127
opcode_map op_num2bin = 128
opcode_map op_bin2num = 129
opcode_map op_size = 130
opcode_map op_equal = 135
opcode_map op_equalverify = 136
opcode_map op_add = 147
opcode_map op_sub = 148
opcode_map op_mul = 149
opcode_map op_div = 150
opcode_map op_mod = 151
opcode_map op_lessthan = 159
opcode_map op_greaterthan = 160
opcode_map op_greaterthanorequal = 162
opcode_map op_hash160 = 169
opcode_map op_hash256 = 170
opcode_map op_checksig = 172
opcode_map (hex ds) = 0

-- `dataLen.toString(16).padStart(2, '0')` for a `dataLen` of half as much as the number of digits, from
-- 1 to 255. With an odd number of digits it has a fraction, and 16 is then its point.
abbrev pub length_hex : ℕ → HexText
length_hex digits =
    if digits % 2 == 0 then byte_hex (digits / 2) else to_hex (digits / 2) ++ 16 ∷ 8 ∷ []

-- A text of hex digits as data, behind the opcode that pushes it; `err` is the error thrown.
unfoldable pub push_data : HexText → Result HexText ℕ
push_data ds =
    let digits = length ds in
    if leb 2 digits && leb digits (2 * 75)
    then ok (length_hex digits ++ ds)
    else if leb (2 * 76) digits && leb digits (2 * 255)
    then ok (4 ∷ 12 ∷ length_hex digits ++ ds)
    else if leb (2 * 256) digits && leb digits (2 * 65535)
    then ok (4 ∷ 13 ∷ byte_hex (digits / 2 % 256) ++ byte_hex (digits / 2 / 256 % 256) ++ ds)
    else err digits

-- A token's text. The empty token, which the source filters out, has none.
unfoldable pub token_hex : Token → Result HexText ℕ
token_hex (hex []) = ok []
token_hex (hex (d ∷ [])) = if d == 0 then ok (0 ∷ 0 ∷ []) else push_data (d ∷ [])
token_hex (hex (d ∷ e ∷ ds)) = push_data (d ∷ e ∷ ds)
token_hex t = ok (byte_hex (opcode_map t))

unfoldable pub asm_to_hex : List Token → Result HexText ℕ
asm_to_hex [] = ok []
asm_to_hex (t ∷ ts) = token_hex t >>= λ h. asm_to_hex ts >>= λ rest. ok (h ++ rest)
