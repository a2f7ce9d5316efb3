-- ===== src/Chain/Der.antt =====
-- Signatures in DER: a strict reader, and what it reads of the encoded ones.
use simply_sats.Prelude.{
  ℕ, zero, suc, ◌+◌, ◌*◌, ◌<◌, ◌≡◌, refl, ap, ◌∙◌, sym, ==_iff, Option, none, some, [], ◌∷◌, ◌++◌,
  length, length-append, take, drop, length-take_min, length-drop, take-all, append-nil, Bool, true,
  false, ◌&&◌, ◌||◌, ltb, leb, ◌==◌, if◌then◌else◌, inl, inr, arith,
}
use simply_sats.Chain.{Bytes}
use simply_sats.Chain.Bytes.{slice}
use simply_sats.Chain.Scripts.{strip, pad_high, encode_integer, compact_to_der}
use simply_sats.Chain.Reading.{Reader, then_read, read_bytes}
use simply_sats.Chain.Reading.Numbers.{read_bytes-append}

abbrev pub value_onto : ℕ → Bytes → ℕ
value_onto n [] = n
value_onto n (b ∷ bs) = value_onto (n * 256 + b) bs

-- The number that bytes stand for, the highest first.
abbrev pub be_value : Bytes → ℕ
be_value bs = value_onto 0 bs

-- A positive integer in the fewest bytes: there is one, its high bit is clear, and a leading zero is
-- there for the next byte's high bit only.
abbrev pub is_strict : Bytes → Bool
is_strict [] = false
is_strict (b ∷ []) = ltb b 0x80
is_strict (b ∷ c ∷ bs) = ltb b 0x80 && (ltb 0 b || leb 0x80 c)

-- An integer with its tag and its length.
unfoldable read_integer : Reader ℕ
unfolding read_bytes
read_integer (tag ∷ n ∷ bs) =
    then_read (read_bytes n bs)
      (λ ds rest. if (tag == 2) && is_strict ds then some (be_value ds, rest) else none)
read_integer bs = none

abbrev at_end : Option ((ℕ × ℕ) × Bytes) → Option (ℕ × ℕ)
at_end (some (rs, [])) = some rs
at_end (some (rs, b ∷ bs)) = none
at_end none = none

-- The two integers of a strict DER signature that takes up all bytes.
unfoldable pub read_der : Bytes → Option (ℕ × ℕ)
unfolding read_integer
read_der (tag ∷ n ∷ bs) =
    if (tag == 0x30) && (n == length bs)
    then at_end (
        then_read (read_integer bs)
          (λ r r1. then_read (read_integer r1) (λ s r2. some ((r, s), r2))))
    else none
read_der bs = none

be_value-strip : (bs : Bytes) → be_value (strip bs) ≡ be_value bs
be_value-strip [] = refl
be_value-strip (b ∷ []) = refl
be_value-strip (zero ∷ c ∷ bs) = be_value-strip (c ∷ bs)
be_value-strip (suc b ∷ c ∷ bs) = refl

be_value-pad_high : (bs : Bytes) → be_value (pad_high bs) ≡ be_value bs
be_value-pad_high [] = refl
be_value-pad_high (b ∷ bs) = ground arith

is_strict-encode_integer : (b : ℕ) (bs : Bytes) → is_strict (encode_integer (b ∷ bs)) ≡ true
is_strict-encode_integer b [] = ground arith
is_strict-encode_integer zero (c ∷ bs) = is_strict-encode_integer c bs
is_strict-encode_integer (suc b) (c ∷ bs) = ground arith

read_integer-encode :
    (bs rest : Bytes)
    → 0 < length bs
    → read_integer (2 ∷ length (encode_integer bs) ∷ (encode_integer bs ++ rest))
      ≡ some (be_value bs, rest)
unfolding read_integer
read_integer-encode [] rest h = absurd (omega arith)
read_integer-encode (b ∷ bs) rest h =
    rw
      (
        read_bytes-append (encode_integer (b ∷ bs)) rest,
        is_strict-encode_integer b bs,
        be_value-pad_high (strip (b ∷ bs)),
        be_value-strip (b ∷ bs),
      )
      refl

read_integer-last :
    (bs : Bytes)
    → 0 < length bs
    → read_integer (2 ∷ length (encode_integer bs) ∷ encode_integer bs) ≡ some (be_value bs, [])
read_integer-last bs h =
    ap (λ ds. read_integer (2 ∷ length (encode_integer bs) ∷ ds))
      (sym (append-nil (encode_integer bs)))
    ∙ read_integer-encode bs [] h

der_length :
    (r s : Bytes)
    → (2 + length r + 2 + length s == length (2 ∷ length r ∷ (r ++ (2 ∷ length s ∷ s)))) ≡ true
der_length r s = (==_iff _ _).1 (omega (arith, length-append r (2 ∷ length s ∷ s)))

read_der-encode :
    (a b : Bytes)
    → 0 < length a
    → 0 < length b
    → let r = encode_integer a in
      let s = encode_integer b in
      read_der ((0x30 ∷ (2 + length r + 2 + length s) ∷ 2 ∷ length r ∷ r) ++ (2 ∷ length s ∷ s))
      ≡ some (be_value a, be_value b)
unfolding read_der read_integer
read_der-encode a b h l =
    let r = encode_integer a in
    let s = encode_integer b in
    rw (der_length r s, read_integer-encode a (2 ∷ length s ∷ s) h)
      (ap (λ o. at_end (then_read o (λ s r2. some ((be_value a, s), r2)))) (read_integer-last b l))

-- The DER form of a signature of 64 bytes is strict, and its two integers are the numbers of the first
-- and of the last 32 bytes.
pub read_der-compact_to_der :
    (compact : Bytes)
    → length compact ≡ 64
    → read_der (compact_to_der compact)
      ≡ some (be_value (take 32 compact), be_value (drop 32 compact))
unfolding compact_to_der
read_der-compact_to_der compact h =
    let tail : length (drop 32 compact) ≡ 32 = elim (length-drop 32 compact) [
      | inl e ↦ omega (arith, e)
      | inr e ↦ absurd (omega (arith, e, h))
    ] in
    let last : slice 32 64 compact ≡ drop 32 compact =
      take-all 32 (drop 32 compact) (omega (arith, tail)) in
    read_der-encode (slice 0 32 compact) (slice 32 64 compact)
      (omega (arith, length-take_min 32 compact (omega arith)))
      (omega (arith, ap length last, tail))
    ∙ ap (λ s. some (be_value (take 32 compact), be_value s)) last
