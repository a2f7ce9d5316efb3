-- ===== src/Hex/RoundTrip.antt =====
-- The little-endian encoding of lock times.
use simply_sats.Prelude.{
  ℕ, zero, suc, ◌*◌, ◌/◌, ◌≤◌, ◌<◌, ◌≡◌, refl, ap, ◌∙◌, some, [], ◌∷◌, length, arith, ◌==◌,
  Bool-cases, inl, inr,
}
use simply_sats.Hex.{
  HexText, to_hex, pad_even, reverse_pairs, value_from, parse_int, int2_hex, hex2_int,
}
use simply_sats.Hex.Digits.{
  value_from-hex_digits, length-hex_digits_gt, length-hex_digits_le, shift, IsPaired,
  pad_even-IsPaired, reverse_pairs-twice, length-reverse_pairs,
}

value_from-pad_even : (ds : HexText) → value_from 0 (pad_even ds) ≡ value_from 0 ds
value_from-pad_even ds = ground arith

parse_int-some : (ds : HexText) → 0 < length ds → parse_int ds ≡ some (value_from 0 ds)
parse_int-some [] h = absurd (omega arith)
parse_int-some (d ∷ ds) h = refl

length-pad_even_ge : (ds : HexText) → length ds ≤ length (pad_even ds)
length-pad_even_ge ds = ground arith

length-to_hex : (n : ℕ) → 0 < n → 0 < length (to_hex n)
length-to_hex n h = omega (arith, length-hex_digits_gt n 0 n [] (omega arith) h)

hex2_int-reverse_pairs :
    (ds : HexText)
    → IsPaired ds
    → 0 < length ds
    → hex2_int (reverse_pairs ds) ≡ some (value_from 0 ds)
unfolding hex2_int
hex2_int-reverse_pairs ds paired h = rw (reverse_pairs-twice ds paired) (parse_int-some ds h)

-- Every number is read back from its little-endian hex text.
pub hex2_int-int2_hex : (n : ℕ) → hex2_int (int2_hex n) ≡ some n
unfolding hex2_int int2_hex reverse_pairs
hex2_int-int2_hex n = elim (Bool-cases (n == 0)) [
  | inl e ↦ rw e (ap some (ground (arith, e)))
  | inr e ↦ rw e (
      hex2_int-reverse_pairs (pad_even (to_hex n)) (pad_even-IsPaired (to_hex n))
        (omega (arith, length-pad_even_ge (to_hex n), length-to_hex n (ground (arith, e))))
      ∙ ap some (value_from-pad_even (to_hex n) ∙ value_from-hex_digits n n [] (omega arith)))
]

IsPaired-even : (ds : HexText) → IsPaired ds → length ds / 2 * 2 ≡ length ds
IsPaired-even [] h = refl
IsPaired-even (a ∷ []) h = absurd h
IsPaired-even (a ∷ b ∷ ds) h = omega (arith, IsPaired-even ds h)

-- As many digits as the number has, made even.
length-int2_hex_pos : (n : ℕ) → 0 < n → length (int2_hex n) ≡ length (pad_even (to_hex n))
unfolding int2_hex
length-int2_hex_pos n h = elim (Bool-cases (n == 0)) [
  | inl e ↦ absurd (ground (arith, e))
  | inr e ↦ rw e (length-reverse_pairs (pad_even (to_hex n)) (pad_even-IsPaired (to_hex n)))
]

-- A whole number of bytes, and at least one.
pub length-int2_hex_even : (n : ℕ) → length (int2_hex n) / 2 * 2 ≡ length (int2_hex n)
unfolding int2_hex
length-int2_hex_even zero = refl
length-int2_hex_even (suc n) = omega (
  arith,
  IsPaired-even (pad_even (to_hex (suc n))) (pad_even-IsPaired (to_hex (suc n))),
  length-int2_hex_pos (suc n) (omega arith),
)

pub length-int2_hex_ge : (n : ℕ) → 2 ≤ length (int2_hex n)
unfolding int2_hex
length-int2_hex_ge zero = omega arith
length-int2_hex_ge (suc n) = omega (
  arith,
  length-int2_hex_even (suc n),
  length-int2_hex_pos (suc n) (omega arith),
  length-pad_even_ge (to_hex (suc n)),
  length-to_hex (suc n) (omega arith),
)

length-pad_even_le : (ds : HexText) (k : ℕ) → length ds ≤ 2 * k → length (pad_even ds) ≤ 2 * k
length-pad_even_le ds k h = ground arith

pub length-int2_hex_le : (k n : ℕ) → 1 ≤ k → shift (2 * k) n ≡ 0 → length (int2_hex n) ≤ 2 * k
unfolding int2_hex
length-int2_hex_le k zero p h = omega arith
length-int2_hex_le k (suc n) p h = omega (
  arith,
  length-int2_hex_pos (suc n) (omega arith),
  length-pad_even_le (to_hex (suc n)) k
      (omega (arith, length-hex_digits_le (suc n) (2 * k) (suc n) [] h)),
)

pub length-int2_hex_gt : (k n : ℕ) → 0 < n → 0 < shift k n → k < length (int2_hex n)
length-int2_hex_gt k n p h = omega (
  arith,
  length-int2_hex_pos n p,
  length-pad_even_ge (to_hex n),
  length-hex_digits_gt n k n [] (omega arith) h,
)
