-- ===== src/Locks/Script.antt =====
-- Timelock scripts (src/domain/locks/timelockScript.ts). Numbers are exact, also where a parsed one is
-- beyond the integers that JavaScript has; `none` is NaN.
use simply_sats.Prelude.{
  ℕ, zero, suc, ◌+◌, ◌-◌, ◌*◌, ◌/◌, Bool, true, false, ◌&&◌, Option, none, some, [], ◌∷◌, ◌++◌,
  length, take, drop, or_else, Result, ok, ◌>>=◌, ◌==◌, ltb, if◌then◌else◌, max, min,
}
use simply_sats.Hex.{HexText, reverse_pairs, parse_int, int2_hex}
use simply_sats.Locks.Asm.{hex, asm_to_hex}
use simply_sats.Locks.Template.{lockup_prefix, lockup_suffix, timelock_script_signature}

unfoldable pub create_timelock_script : HexText → ℕ → Result HexText ℕ
create_timelock_script public_key_hash block_height =
    asm_to_hex (lockup_prefix ++ hex public_key_hash ∷ hex (int2_hex block_height) ∷ lockup_suffix)

abbrev pub noughts : ℕ → HexText
noughts zero = []
noughts (suc n) = 0 ∷ noughts n

-- The size in bytes; the public key is not used.
unfoldable pub get_timelock_script_size : HexText → ℕ → Result ℕ ℕ
unfolding create_timelock_script
get_timelock_script_size public_key_hex block_height =
    create_timelock_script (noughts 40) block_height >>= λ script. ok (length script / 2)

abbrev pub starts_with : HexText → HexText → Bool
starts_with text [] = true
starts_with [] (p ∷ ps) = false
starts_with (d ∷ ds) (p ∷ ps) = (d == p) && starts_with ds ps

-- `text.substring(a, b)`, which swaps the bounds when they are out of order.
abbrev pub substring : HexText → ℕ → ℕ → HexText
substring text a b = take (max a b - min a b) (drop (min a b) text)

pub record ParsedTimelockScript : Type 0 where
  pub unlock_block : Option ℕ
  pub public_key_hash : HexText

-- The end of the data behind a push byte at `start`; NaN as a bound is 0.
abbrev pub data_end : ℕ → Option ℕ → ℕ
data_end start none = 0
data_end start (some push_len) = start + 2 + push_len * 2

-- The number behind its push byte at `start`; `NaN > 4` is false.
abbrev pub n_lock_time : HexText → ℕ → Option (Option ℕ)
n_lock_time script start =
    let push_len = parse_int (substring script start (start + 2)) in
    if ltb 4 (or_else push_len 0)
    then none
    else some (parse_int (reverse_pairs (substring script (start + 2) (data_end start push_len))))

abbrev pub parsed : Option ℕ → HexText → ParsedTimelockScript
parsed block pkh = record { unlock_block = block; public_key_hash = pkh }

abbrev pub with_hash : Option (Option ℕ) → HexText → Option ParsedTimelockScript
with_hash none pkh = none
with_hash (some block) pkh = some (parsed block pkh)

unfoldable pub parse_timelock_script : HexText → Option ParsedTimelockScript
unfolding reverse_pairs
parse_timelock_script script =
    if starts_with script timelock_script_signature
    then if starts_with (substring script 204 206) (1 ∷ 4 ∷ [])
      then with_hash (n_lock_time script 246) (substring script 206 246)
      else none
    else none

abbrev pub is_timelock_script : HexText → Bool
is_timelock_script script = starts_with script timelock_script_signature
