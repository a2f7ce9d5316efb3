-- ===== src/Hex/Digits.antt =====
-- The digits of a number: their value, their count, and their pairs.
use simply_sats.Prelude.{
  ℕ, zero, suc, ◌+◌, ◌/◌, ◌%◌, ◌≤◌, ◌<◌, ◌≡◌, refl, ap, ◌∙◌, [], ◌∷◌, ◌++◌, length, length-append,
  arith, ◌==◌, Bool-cases, inl, inr,
}
use simply_sats.Hex.{HexText, hex_digits, pad_even, reverse_pairs, value_from}

pub value_from-hex_digits :
    (fuel n : ℕ) (out : HexText)
    → n ≤ fuel
    → value_from 0 (hex_digits fuel n out) ≡ value_from n out
unfolding hex_digits
value_from-hex_digits zero n out h = ap (λ m. value_from m out) (omega arith)
value_from-hex_digits (suc fuel) n out h = elim (Bool-cases (n == 0)) [
  | inl e ↦ rw e (ap (λ m. value_from m out) (ground (arith, e)))
  | inr e ↦ rw e (
      value_from-hex_digits fuel (n / 16) ((n % 16) ∷ out) (ground (arith, e))
      ∙ ap (λ m. value_from m out) (omega arith))
]

-- The number without its last `k` digits.
abbrev pub shift : ℕ → ℕ → ℕ
shift zero n = n
shift (suc k) n = shift k (n / 16)

pub length-hex_digits_le :
    (fuel k n : ℕ) (out : HexText) → shift k n ≡ 0 → length (hex_digits fuel n out) ≤ k + length out
unfolding hex_digits
length-hex_digits_le zero k n out h = omega arith
length-hex_digits_le (suc fuel) zero n out h = ground arith
length-hex_digits_le (suc fuel) (suc k) n out h =
    ground (arith, length-hex_digits_le fuel k (n / 16) ((n % 16) ∷ out))

shift-zero : (k : ℕ) → shift k 0 ≡ 0
shift-zero zero = refl
shift-zero (suc k) = shift-zero k

length-hex_digits_ge : (fuel n : ℕ) (out : HexText) → length out ≤ length (hex_digits fuel n out)
unfolding hex_digits
length-hex_digits_ge zero n out = omega arith
length-hex_digits_ge (suc fuel) n out =
    ground (arith, length-hex_digits_ge fuel (n / 16) ((n % 16) ∷ out))

pub length-hex_digits_gt :
    (fuel k n : ℕ) (out : HexText)
    → n ≤ fuel
    → 0 < shift k n
    → k + length out < length (hex_digits fuel n out)
unfolding hex_digits
length-hex_digits_gt zero k zero out h p = absurd (omega (arith, p, shift-zero k))
length-hex_digits_gt zero k (suc n) out h p = absurd (omega (arith, h))
length-hex_digits_gt (suc fuel) zero n out h p =
    ground (arith, length-hex_digits_ge fuel (n / 16) ((n % 16) ∷ out))
length-hex_digits_gt (suc fuel) (suc k) zero out h p = absurd (omega (arith, p, shift-zero k))
length-hex_digits_gt (suc fuel) (suc k) (suc n) out h p =
    ground
      (arith, length-hex_digits_gt fuel k (suc n / 16) ((suc n % 16) ∷ out) (omega (arith, h)) p)

-- An even number of digits.
abbrev pub IsPaired : HexText → Type 0
IsPaired [] = Unit
IsPaired (a ∷ []) = ⊥
IsPaired (a ∷ b ∷ ds) = IsPaired ds

IsPaired-of_even : (ds : HexText) → length ds % 2 ≡ 0 → IsPaired ds
IsPaired-of_even [] h = tt
IsPaired-of_even (a ∷ []) h = absurd (omega arith)
IsPaired-of_even (a ∷ b ∷ ds) h = IsPaired-of_even ds (omega arith)

pub pad_even-IsPaired : (ds : HexText) → IsPaired (pad_even ds)
pad_even-IsPaired ds = elim (Bool-cases (length ds % 2 == 0)) [
  | inl e ↦ rw e (IsPaired-of_even ds (ground (arith, e)))
  | inr e ↦ rw e (IsPaired-of_even (0 ∷ ds) (ground (arith, e)))
]

reverse_pairs-append :
    (xs : HexText) (a b : ℕ)
    → IsPaired xs
    → reverse_pairs (xs ++ a ∷ b ∷ []) ≡ a ∷ b ∷ reverse_pairs xs
unfolding reverse_pairs
reverse_pairs-append [] a b h = refl
reverse_pairs-append (x ∷ []) a b h = absurd h
reverse_pairs-append (x ∷ y ∷ xs) a b h = ap (λ l. l ++ x ∷ y ∷ []) (reverse_pairs-append xs a b h)

IsPaired-append_pair : (xs : HexText) (a b : ℕ) → IsPaired xs → IsPaired (xs ++ a ∷ b ∷ [])
IsPaired-append_pair [] a b h = tt
IsPaired-append_pair (x ∷ []) a b h = absurd h
IsPaired-append_pair (x ∷ y ∷ xs) a b h = IsPaired-append_pair xs a b h

reverse_pairs-IsPaired : (xs : HexText) → IsPaired xs → IsPaired (reverse_pairs xs)
unfolding reverse_pairs
reverse_pairs-IsPaired [] h = tt
reverse_pairs-IsPaired (x ∷ []) h = absurd h
reverse_pairs-IsPaired (x ∷ y ∷ xs) h =
    IsPaired-append_pair (reverse_pairs xs) x y (reverse_pairs-IsPaired xs h)

pub reverse_pairs-twice : (xs : HexText) → IsPaired xs → reverse_pairs (reverse_pairs xs) ≡ xs
unfolding reverse_pairs
reverse_pairs-twice [] h = refl
reverse_pairs-twice (x ∷ []) h = absurd h
reverse_pairs-twice (x ∷ y ∷ xs) h =
    reverse_pairs-append (reverse_pairs xs) x y (reverse_pairs-IsPaired xs h)
    ∙ ap (λ l. x ∷ y ∷ l) (reverse_pairs-twice xs h)

pub length-reverse_pairs : (xs : HexText) → IsPaired xs → length (reverse_pairs xs) ≡ length xs
unfolding reverse_pairs
length-reverse_pairs [] h = refl
length-reverse_pairs (x ∷ []) h = absurd h
length-reverse_pairs (x ∷ y ∷ xs) h =
    omega (arith, length-append (reverse_pairs xs) (x ∷ y ∷ []), length-reverse_pairs xs h)
