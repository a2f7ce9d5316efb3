-- ===== src/Locks/Template.antt =====
-- The compiled template of src/domain/locks/timelockScript.ts. Its suffix is written in parts, with the
-- pairs of tokens that it repeats.
use simply_sats.Prelude.{ℕ, zero, suc, List, [], ◌∷◌, ◌++◌}
use simply_sats.Hex.{HexText}
use simply_sats.Locks.Asm.{
  Token, hex, op_1, op_2, op_3, op_4, op_5, op_6, op_7, op_8, op_9, op_add, op_bin2num, op_cat,
  op_checksig, op_div, op_drop, op_else, op_endif, op_equal, op_greaterthan, op_greaterthanorequal,
  op_hash160, op_hash256, op_if, op_lessthan, op_mod, op_mul, op_nip, op_nop, op_num2bin, op_pick,
  op_roll, op_size, op_split, op_sub, op_swap, op_verify,
}

abbrev nought : Token
nought = hex (0 ∷ [])

abbrev pub lockup_prefix : List Token
lockup_prefix =
    hex (
      9 ∷ 7 ∷ 13 ∷ 15 ∷ 13 ∷ 7 ∷ 6 ∷ 8 ∷ 5 ∷ 1 ∷ 11 ∷ 15 ∷ 4 ∷ 6 ∷ 5 ∷ 14 ∷ 8 ∷ 15 ∷ 7 ∷ 1 ∷ 5 ∷ 5
      ∷ 9 ∷ 3 ∷ 11 ∷ 2 ∷ 1 ∷ 7 ∷ 7 ∷ 1 ∷ 4 ∷ 8 ∷ 5 ∷ 8 ∷ 11 ∷ 11 ∷ 14 ∷ 9 ∷ 5 ∷ 7 ∷ 0 ∷ 15 ∷ 15 ∷ 3
      ∷ 11 ∷ 13 ∷ 5 ∷ 14 ∷ 3 ∷ 3 ∷ 8 ∷ 4 ∷ 0 ∷ 10 ∷ 3 ∷ 4 ∷ 14 ∷ 2 ∷ 0 ∷ 15 ∷ 15 ∷ 0 ∷ 2 ∷ 6 ∷ [])
    ∷ hex (
        0 ∷ 2 ∷ 11 ∷ 10 ∷ 7 ∷ 9 ∷ 13 ∷ 15 ∷ 5 ∷ 15 ∷ 8 ∷ 10 ∷ 14 ∷ 7 ∷ 6 ∷ 0 ∷ 4 ∷ 10 ∷ 9 ∷ 8 ∷ 3
        ∷ 0 ∷ 15 ∷ 0 ∷ 3 ∷ 12 ∷ 7 ∷ 9 ∷ 3 ∷ 3 ∷ 0 ∷ 2 ∷ 8 ∷ 1 ∷ 8 ∷ 6 ∷ 10 ∷ 14 ∷ 13 ∷ 14 ∷ 0 ∷ 6
        ∷ 7 ∷ 5 ∷ 10 ∷ 1 ∷ 6 ∷ 15 ∷ 0 ∷ 2 ∷ 5 ∷ 13 ∷ 12 ∷ 4 ∷ 15 ∷ 8 ∷ 11 ∷ 14 ∷ 8 ∷ 14 ∷ 14 ∷ 12
        ∷ 0 ∷ 3 ∷ 8 ∷ 2 ∷ [])
    ∷ hex (
        1 ∷ 0 ∷ 0 ∷ 8 ∷ 12 ∷ 14 ∷ 7 ∷ 4 ∷ 8 ∷ 0 ∷ 13 ∷ 10 ∷ 4 ∷ 1 ∷ 7 ∷ 0 ∷ 2 ∷ 9 ∷ 1 ∷ 8 ∷ 13 ∷ 1
        ∷ 14 ∷ 12 ∷ 8 ∷ 14 ∷ 6 ∷ 8 ∷ 4 ∷ 9 ∷ 11 ∷ 10 ∷ 3 ∷ 2 ∷ 11 ∷ 4 ∷ 13 ∷ 6 ∷ 5 ∷ 11 ∷ 1 ∷ 14 ∷ 4
        ∷ 0 ∷ 13 ∷ 12 ∷ 6 ∷ 6 ∷ 9 ∷ 12 ∷ 3 ∷ 1 ∷ 10 ∷ 1 ∷ 14 ∷ 6 ∷ 3 ∷ 0 ∷ 6 ∷ 11 ∷ 2 ∷ 6 ∷ 6 ∷ 12
        ∷ [])
    ∷ nought
    ∷ nought
    ∷ []

-- The 33 bytes that the prefix begins with.
abbrev pub timelock_script_signature : HexText
timelock_script_signature =
    2 ∷ 0 ∷ 9 ∷ 7 ∷ 13 ∷ 15 ∷ 13 ∷ 7 ∷ 6 ∷ 8 ∷ 5 ∷ 1 ∷ 11 ∷ 15 ∷ 4 ∷ 6 ∷ 5 ∷ 14 ∷ 8 ∷ 15 ∷ 7 ∷ 1 ∷ 5
    ∷ 5 ∷ 9 ∷ 3 ∷ 11 ∷ 2 ∷ 1 ∷ 7 ∷ 7 ∷ 1 ∷ 4 ∷ 8 ∷ 5 ∷ 8 ∷ 11 ∷ 11 ∷ 14 ∷ 9 ∷ 5 ∷ 7 ∷ 0 ∷ 15 ∷ 15
    ∷ 3 ∷ 11 ∷ 13 ∷ 5 ∷ 14 ∷ 3 ∷ 3 ∷ 8 ∷ 4 ∷ 0 ∷ 10 ∷ 3 ∷ 4 ∷ 14 ∷ 2 ∷ 0 ∷ 15 ∷ 15 ∷ 0 ∷ 2 ∷ 6 ∷ []

abbrev repeat : ℕ → List Token → List Token
repeat zero ts = []
repeat (suc n) ts = ts ++ repeat n ts

abbrev part_1 : List Token
part_1 =
    op_nop
    ∷ nought
    ∷ op_pick
    ∷ hex (0 ∷ 0 ∷ 6 ∷ 5 ∷ 12 ∷ 13 ∷ 1 ∷ 13 ∷ [])
    ∷ op_lessthan
    ∷ op_verify
    ∷ nought
    ∷ op_pick
    ∷ op_4
    ∷ op_roll
    ∷ op_drop
    ∷ op_3
    ∷ op_roll
    ∷ op_3
    ∷ op_roll
    ∷ op_3
    ∷ op_roll
    ∷ op_1
    ∷ op_pick
    ∷ op_3
    ∷ op_roll
    ∷ op_drop
    ∷ op_2
    ∷ op_roll
    ∷ op_2
    ∷ op_roll
    ∷ op_drop
    ∷ op_drop
    ∷ op_nop
    ∷ op_5
    ∷ op_pick
    ∷ hex (4 ∷ 1 ∷ [])
    ∷ op_nop
    ∷ op_1
    ∷ op_pick
    ∷ op_7
    ∷ op_pick
    ∷ op_7
    ∷ op_pick
    ∷ hex (
        0 ∷ 10 ∷ 12 ∷ 4 ∷ 0 ∷ 7 ∷ 15 ∷ 0 ∷ 14 ∷ 4 ∷ 11 ∷ 13 ∷ 4 ∷ 4 ∷ 11 ∷ 15 ∷ 12 ∷ 2 ∷ 0 ∷ 7 ∷ 3
        ∷ 5 ∷ 5 ∷ 10 ∷ 7 ∷ 7 ∷ 8 ∷ 11 ∷ 0 ∷ 4 ∷ 6 ∷ 2 ∷ 2 ∷ 5 ∷ 10 ∷ 7 ∷ 0 ∷ 6 ∷ 8 ∷ 15 ∷ 12 ∷ 5 ∷ 9
        ∷ 14 ∷ 14 ∷ 7 ∷ 14 ∷ 13 ∷ 10 ∷ 4 ∷ 3 ∷ 10 ∷ 13 ∷ 9 ∷ 0 ∷ 5 ∷ 10 ∷ 10 ∷ 13 ∷ 11 ∷ 15 ∷ 15
        ∷ 12 ∷ 8 ∷ 0 ∷ 0 ∷ [])
    ∷ hex (
        6 ∷ 12 ∷ 2 ∷ 6 ∷ 6 ∷ 11 ∷ 3 ∷ 0 ∷ 14 ∷ 6 ∷ 10 ∷ 1 ∷ 3 ∷ 1 ∷ 9 ∷ 12 ∷ 6 ∷ 6 ∷ 13 ∷ 12 ∷ 4 ∷ 0
        ∷ 1 ∷ 14 ∷ 5 ∷ 11 ∷ 13 ∷ 6 ∷ 11 ∷ 4 ∷ 3 ∷ 2 ∷ 11 ∷ 10 ∷ 4 ∷ 9 ∷ 6 ∷ 8 ∷ 8 ∷ 14 ∷ 14 ∷ 12
        ∷ 13 ∷ 1 ∷ 1 ∷ 8 ∷ 2 ∷ 9 ∷ 7 ∷ 0 ∷ 4 ∷ 1 ∷ 13 ∷ 10 ∷ 8 ∷ 0 ∷ 7 ∷ 4 ∷ 12 ∷ 14 ∷ 0 ∷ 8 ∷ 1 ∷ 0
        ∷ [])
    ∷ op_9
    ∷ op_pick
    ∷ op_6
    ∷ op_pick
    ∷ op_nop
    ∷ op_6
    ∷ op_pick
    ∷ []

abbrev part_2 : List Token
part_2 = op_hash256 ∷ nought ∷ op_pick ∷ op_nop ∷ nought ∷ op_pick ∷ []

abbrev part_3 : List Token
part_3 =
    hex (0 ∷ 0 ∷ [])
    ∷ op_cat
    ∷ op_bin2num
    ∷ op_1
    ∷ op_roll
    ∷ op_drop
    ∷ op_nop
    ∷ op_7
    ∷ op_pick
    ∷ op_6
    ∷ op_pick
    ∷ op_6
    ∷ op_pick
    ∷ op_6
    ∷ op_pick
    ∷ op_6
    ∷ op_pick
    ∷ op_nop
    ∷ op_3
    ∷ op_pick
    ∷ op_6
    ∷ op_pick
    ∷ op_4
    ∷ op_pick
    ∷ op_7
    ∷ op_pick
    ∷ op_mul
    ∷ op_add
    ∷ op_mul
    ∷ hex (
        4 ∷ 1 ∷ 4 ∷ 1 ∷ 3 ∷ 6 ∷ 13 ∷ 0 ∷ 8 ∷ 12 ∷ 5 ∷ 14 ∷ 13 ∷ 2 ∷ 11 ∷ 15 ∷ 3 ∷ 11 ∷ 10 ∷ 0 ∷ 4
        ∷ 8 ∷ 10 ∷ 15 ∷ 14 ∷ 6 ∷ 13 ∷ 12 ∷ 10 ∷ 14 ∷ 11 ∷ 10 ∷ 15 ∷ 14 ∷ 15 ∷ 15 ∷ 15 ∷ 15 ∷ 15 ∷ 15
        ∷ 15 ∷ 15 ∷ 15 ∷ 15 ∷ 15 ∷ 15 ∷ 15 ∷ 15 ∷ 15 ∷ 15 ∷ 15 ∷ 15 ∷ 15 ∷ 15 ∷ 15 ∷ 15 ∷ 15 ∷ 15
        ∷ 15 ∷ 15 ∷ 15 ∷ 15 ∷ 15 ∷ 15 ∷ 0 ∷ 0 ∷ [])
    ∷ op_1
    ∷ op_pick
    ∷ op_1
    ∷ op_pick
    ∷ op_nop
    ∷ op_1
    ∷ op_pick
    ∷ op_1
    ∷ op_pick
    ∷ op_mod
    ∷ nought
    ∷ op_pick
    ∷ nought
    ∷ op_lessthan
    ∷ op_if
    ∷ nought
    ∷ op_pick
    ∷ op_2
    ∷ []

abbrev part_4 : List Token
part_4 =
    op_pick ∷ op_add ∷ op_else ∷ nought ∷ op_pick ∷ op_endif ∷ op_1 ∷ op_roll ∷ op_drop ∷ op_1
    ∷ op_roll ∷ op_drop ∷ op_1 ∷ op_roll ∷ op_drop ∷ op_nop ∷ op_2 ∷ op_roll ∷ op_drop ∷ op_1
    ∷ op_roll ∷ op_1 ∷ op_pick ∷ op_1 ∷ op_pick ∷ op_2 ∷ op_div ∷ op_greaterthan ∷ op_if ∷ nought
    ∷ op_pick ∷ op_2 ∷ op_pick ∷ op_sub ∷ op_2 ∷ op_roll ∷ op_drop ∷ op_1 ∷ op_roll ∷ op_endif
    ∷ op_3 ∷ op_pick ∷ op_size ∷ op_nip ∷ op_2 ∷ op_pick ∷ op_size ∷ op_nip ∷ []

abbrev part_5 : List Token
part_5 = op_3 ∷ op_pick ∷ hex (2 ∷ 0 ∷ []) ∷ op_num2bin ∷ []

abbrev part_6 : List Token
part_6 =
    hex (2 ∷ 0 ∷ [])
    ∷ op_2
    ∷ op_pick
    ∷ op_sub
    ∷ op_split
    ∷ op_nip
    ∷ op_4
    ∷ op_3
    ∷ op_pick
    ∷ op_add
    ∷ op_2
    ∷ op_pick
    ∷ op_add
    ∷ hex (3 ∷ 0 ∷ [])
    ∷ op_1
    ∷ op_pick
    ∷ op_cat
    ∷ op_2
    ∷ op_cat
    ∷ op_4
    ∷ op_pick
    ∷ op_cat
    ∷ op_8
    ∷ op_pick
    ∷ op_cat
    ∷ op_2
    ∷ op_cat
    ∷ op_3
    ∷ op_pick
    ∷ op_cat
    ∷ op_2
    ∷ op_pick
    ∷ op_cat
    ∷ op_7
    ∷ op_pick
    ∷ op_cat
    ∷ nought
    ∷ op_pick
    ∷ op_1
    ∷ op_roll
    ∷ op_drop
    ∷ op_1
    ∷ op_roll
    ∷ op_drop
    ∷ op_1
    ∷ op_roll
    ∷ op_drop
    ∷ op_1
    ∷ []

abbrev part_7 : List Token
part_7 =
    op_roll ∷ op_drop ∷ op_1 ∷ op_roll ∷ op_drop ∷ op_1 ∷ op_roll ∷ op_drop ∷ op_1 ∷ op_roll
    ∷ op_drop ∷ op_1 ∷ op_roll ∷ op_drop ∷ op_1 ∷ op_roll ∷ op_drop ∷ op_1 ∷ op_roll ∷ op_drop
    ∷ op_1 ∷ op_roll ∷ op_drop ∷ op_1 ∷ op_roll ∷ op_drop ∷ op_1 ∷ op_roll ∷ op_drop ∷ op_nop
    ∷ nought ∷ op_pick ∷ op_7 ∷ op_pick ∷ op_checksig ∷ op_1 ∷ op_roll ∷ op_drop ∷ op_1 ∷ op_roll
    ∷ op_drop ∷ op_1 ∷ op_roll ∷ op_drop ∷ op_1 ∷ op_roll ∷ op_drop ∷ op_1 ∷ []

abbrev part_8 : List Token
part_8 =
    op_roll ∷ op_drop ∷ op_1 ∷ op_roll ∷ op_drop ∷ op_1 ∷ op_roll ∷ op_drop ∷ op_1 ∷ op_roll
    ∷ op_drop ∷ op_1 ∷ op_roll ∷ op_drop ∷ op_nop ∷ op_1 ∷ op_roll ∷ op_drop ∷ op_1 ∷ op_roll
    ∷ op_drop ∷ op_nop ∷ op_verify ∷ op_5 ∷ op_pick ∷ op_nop ∷ nought ∷ op_pick ∷ op_nop ∷ nought
    ∷ op_pick ∷ op_size ∷ op_nip ∷ op_1 ∷ op_pick ∷ op_1 ∷ op_pick ∷ op_4 ∷ op_sub ∷ op_split
    ∷ op_drop ∷ op_1 ∷ op_pick ∷ op_8 ∷ op_sub ∷ op_split ∷ op_nip ∷ op_1 ∷ []

abbrev part_9 : List Token
part_9 =
    op_roll
    ∷ op_drop
    ∷ op_1
    ∷ op_roll
    ∷ op_drop
    ∷ op_nop
    ∷ op_nop
    ∷ nought
    ∷ op_pick
    ∷ hex (0 ∷ 0 ∷ [])
    ∷ op_cat
    ∷ op_bin2num
    ∷ op_1
    ∷ op_roll
    ∷ op_drop
    ∷ op_nop
    ∷ op_1
    ∷ op_roll
    ∷ op_drop
    ∷ op_nop
    ∷ hex (0 ∷ 0 ∷ 6 ∷ 5 ∷ 12 ∷ 13 ∷ 1 ∷ 13 ∷ [])
    ∷ op_lessthan
    ∷ op_verify
    ∷ op_5
    ∷ op_pick
    ∷ op_nop
    ∷ nought
    ∷ op_pick
    ∷ op_nop
    ∷ nought
    ∷ op_pick
    ∷ op_size
    ∷ op_nip
    ∷ op_1
    ∷ op_pick
    ∷ op_1
    ∷ op_pick
    ∷ hex (2 ∷ 8 ∷ [])
    ∷ op_sub
    ∷ op_split
    ∷ op_drop
    ∷ op_1
    ∷ op_pick
    ∷ hex (2 ∷ 12 ∷ [])
    ∷ op_sub
    ∷ op_split
    ∷ op_nip
    ∷ op_1
    ∷ []

abbrev part_10 : List Token
part_10 =
    op_roll
    ∷ op_drop
    ∷ op_1
    ∷ op_roll
    ∷ op_drop
    ∷ op_nop
    ∷ op_nop
    ∷ nought
    ∷ op_pick
    ∷ hex (0 ∷ 0 ∷ [])
    ∷ op_cat
    ∷ op_bin2num
    ∷ op_1
    ∷ op_roll
    ∷ op_drop
    ∷ op_nop
    ∷ op_1
    ∷ op_roll
    ∷ op_drop
    ∷ op_nop
    ∷ hex (15 ∷ 15 ∷ 15 ∷ 15 ∷ 15 ∷ 15 ∷ 15 ∷ 15 ∷ 0 ∷ 0 ∷ [])
    ∷ op_lessthan
    ∷ op_verify
    ∷ op_5
    ∷ op_pick
    ∷ op_nop
    ∷ nought
    ∷ op_pick
    ∷ op_nop
    ∷ nought
    ∷ op_pick
    ∷ op_size
    ∷ op_nip
    ∷ op_1
    ∷ op_pick
    ∷ op_1
    ∷ op_pick
    ∷ op_4
    ∷ op_sub
    ∷ op_split
    ∷ op_drop
    ∷ op_1
    ∷ op_pick
    ∷ op_8
    ∷ op_sub
    ∷ op_split
    ∷ op_nip
    ∷ op_1
    ∷ []

abbrev part_11 : List Token
part_11 =
    op_roll
    ∷ op_drop
    ∷ op_1
    ∷ op_roll
    ∷ op_drop
    ∷ op_nop
    ∷ op_nop
    ∷ nought
    ∷ op_pick
    ∷ hex (0 ∷ 0 ∷ [])
    ∷ op_cat
    ∷ op_bin2num
    ∷ op_1
    ∷ op_roll
    ∷ op_drop
    ∷ op_nop
    ∷ op_1
    ∷ op_roll
    ∷ op_drop
    ∷ op_nop
    ∷ op_2
    ∷ op_pick
    ∷ op_greaterthanorequal
    ∷ op_verify
    ∷ op_6
    ∷ op_pick
    ∷ op_hash160
    ∷ op_1
    ∷ op_pick
    ∷ op_equal
    ∷ op_verify
    ∷ op_7
    ∷ op_pick
    ∷ op_7
    ∷ op_pick
    ∷ op_checksig
    ∷ op_nip
    ∷ op_nip
    ∷ op_nip
    ∷ op_nip
    ∷ op_nip
    ∷ op_nip
    ∷ op_nip
    ∷ op_nip
    ∷ []

unfoldable pub lockup_suffix : List Token
lockup_suffix =
    part_1
    ++ part_2
    ++ repeat 31 (op_1 ∷ op_split ∷ [])
    ++ repeat 31 (op_swap ∷ op_cat ∷ [])
    ++ part_3
    ++ part_4
    ++ part_5
    ++ repeat 31 (op_1 ∷ op_split ∷ [])
    ++ repeat 31 (op_swap ∷ op_cat ∷ [])
    ++ part_6
    ++ part_7
    ++ part_8
    ++ part_9
    ++ part_10
    ++ part_11
