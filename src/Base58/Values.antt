-- ===== src/Base58/Values.antt =====
-- The number that a decoded Base58 text stands for.
use simply_sats.Prelude.{
  ℕ, zero, suc, ◌+◌, ◌*◌, ◌/◌, ◌≤◌, ◌<◌, ◌≡◌, refl, ap, sym, ◌∙◌, Bool, true, false, none, some, [],
  ◌∷◌, ◌++◌, All, ok, bind_ok, ok-injective, subst, ltb, ◌==◌, Bool-cases, inl, inr, Option-cases,
  arith,
}
use simply_sats.Chain.{Bytes}
use simply_sats.Chain.Bytes.{reverse_bytes}
use simply_sats.Chain.Der.{value_onto, be_value}
use simply_sats.Base58.{
  Text, base58_chars, index_of, push_carry, times_58, decode_onto, leading, base58_decode,
}

-- The number of bytes, the lowest first.
abbrev pub le_value : Bytes → ℕ
le_value [] = 0
le_value (b ∷ bs) = b + 256 * le_value bs

push_carry-value : (fuel carry : ℕ) → carry ≤ fuel → le_value (push_carry fuel carry) ≡ carry
push_carry-value zero carry h = omega arith
push_carry-value (suc fuel) carry h = elim (Bool-cases (ltb 0 carry)) [
  | inl e ↦ rw (e, push_carry-value fuel (carry / 256) (ground (arith, e))) (omega arith)
  | inr e ↦ rw e (ground (arith, e))
]

times_58-value : (carry : ℕ) (bs : Bytes) → le_value (times_58 carry bs) ≡ carry + 58 * le_value bs
unfolding times_58
times_58-value carry [] = push_carry-value carry carry (omega arith) ∙ omega arith
times_58-value carry (b ∷ bs) = rw (times_58-value ((carry + b * 58) / 256) bs) (omega arith)

-- The number that a text's digits stand for behind a number; characters that are none are skipped.
unfoldable pub base58_value : ℕ → Text → ℕ
unfolding index_of
base58_value n [] = n
base58_value n (c ∷ cs) = elim (index_of c base58_chars) [
  | none ↦ base58_value n cs
  | some v ↦ base58_value (n * 58 + v) cs
]

pub decode_onto-digit :
    (strict : Bool) (bytes : Bytes) (c v : ℕ) (cs : Text)
    → index_of c base58_chars ≡ some v
    → decode_onto strict bytes (c ∷ cs) ≡ decode_onto strict (times_58 v bytes) cs
unfolding decode_onto
decode_onto-digit strict bytes c v cs f = rw (f, decode_onto) refl

-- A character that is no digit stops the strict mode, and is skipped in the other.
pub decode_onto-other :
    (strict : Bool) (bytes out : Bytes) (c : ℕ) (cs : Text)
    → index_of c base58_chars ≡ none
    → decode_onto strict bytes (c ∷ cs) ≡ ok out
    → decode_onto strict bytes cs ≡ ok out
unfolding decode_onto
decode_onto-other true bytes out c cs f e = absurd (ground (arith, f, e))
decode_onto-other false bytes out c cs f e = sym (rw (f, decode_onto) refl) ∙ e

base58_value-digit :
    (n c v : ℕ) (cs : Text)
    → index_of c base58_chars ≡ some v
    → base58_value n (c ∷ cs) ≡ base58_value (n * 58 + v) cs
unfolding base58_value
base58_value-digit n c v cs f = rw (f, base58_value) refl

base58_value-other :
    (n c : ℕ) (cs : Text)
    → index_of c base58_chars ≡ none
    → base58_value n (c ∷ cs) ≡ base58_value n cs
unfolding base58_value
base58_value-other n c cs f = rw (f, base58_value) refl

decode_onto-value :
    (strict : Bool) (bytes : Bytes) (str : Text) (out : Bytes)
    → decode_onto strict bytes str ≡ ok out
    → le_value out ≡ base58_value (le_value bytes) str
unfolding decode_onto base58_value
decode_onto-value strict bytes [] out e = ap le_value (sym (ok-injective e))
decode_onto-value strict bytes (c ∷ cs) out e = elim (Option-cases (index_of c base58_chars)) [
  | inl f ↦
      decode_onto-value strict bytes cs out (decode_onto-other strict bytes out c cs f e)
      ∙ sym (base58_value-other (le_value bytes) c cs f)
  | inr (v, f) ↦
      decode_onto-value strict (times_58 v bytes) cs out
        (sym (decode_onto-digit strict bytes c v cs f) ∙ e)
      ∙ ap (λ n. base58_value n cs) (times_58-value v bytes ∙ omega arith)
      ∙ sym (base58_value-digit (le_value bytes) c v cs f)
]

-- Bytes in the sense of the source.
abbrev pub AreBytes : Bytes → Type 0
AreBytes = All (λ b. b < 256)

-- All bytes that the loop makes are below 256.
push_carry-bytes : (fuel carry : ℕ) → AreBytes (push_carry fuel carry)
push_carry-bytes zero carry = tt
push_carry-bytes (suc fuel) carry = elim (Bool-cases (ltb 0 carry)) [
  | inl e ↦ rw e (omega arith, push_carry-bytes fuel (carry / 256))
  | inr e ↦ rw e tt
]

times_58-bytes : (carry : ℕ) (bs : Bytes) → AreBytes (times_58 carry bs)
unfolding times_58
times_58-bytes carry [] = push_carry-bytes carry carry
times_58-bytes carry (b ∷ bs) = (omega arith, times_58-bytes ((carry + b * 58) / 256) bs)

decode_onto-bytes :
    (strict : Bool) (bytes : Bytes) (str : Text) (out : Bytes)
    → AreBytes bytes
    → decode_onto strict bytes str ≡ ok out
    → AreBytes out
unfolding decode_onto
decode_onto-bytes strict bytes [] out h e = subst AreBytes (ok-injective e) h
decode_onto-bytes strict bytes (c ∷ cs) out h e = elim (Option-cases (index_of c base58_chars)) [
  | inl f ↦ decode_onto-bytes strict bytes cs out h (decode_onto-other strict bytes out c cs f e)
  | inr (v, f) ↦
      decode_onto-bytes strict (times_58 v bytes) cs out (times_58-bytes v bytes)
        (sym (decode_onto-digit strict bytes c v cs f) ∙ e)
]

value_onto-append :
    (n : ℕ) (bs : Bytes) (b : ℕ) → value_onto n (bs ++ (b ∷ [])) ≡ value_onto n bs * 256 + b
value_onto-append n [] b = refl
value_onto-append n (c ∷ bs) b = value_onto-append (n * 256 + c) bs b

be_value-reverse_bytes : (bs : Bytes) → be_value (reverse_bytes bs) ≡ le_value bs
be_value-reverse_bytes [] = refl
be_value-reverse_bytes (b ∷ bs) =
    value_onto-append 0 (reverse_bytes bs) b ∙ omega (arith, be_value-reverse_bytes bs)

le_value-leading : (bs : Bytes) (str : Text) → le_value (bs ++ leading str) ≡ le_value bs
le_value-leading [] [] = refl
le_value-leading [] (c ∷ str) = ground (arith, le_value-leading [] str)
le_value-leading (b ∷ bs) str = omega (arith, le_value-leading bs str)

AreBytes-append : (xs ys : Bytes) → AreBytes xs → AreBytes ys → AreBytes (xs ++ ys)
AreBytes-append [] ys h l = l
AreBytes-append (x ∷ xs) ys h l = (h.0, AreBytes-append xs ys h.1 l)

All-reverse_bytes : (bs : Bytes) → AreBytes bs → AreBytes (reverse_bytes bs)
All-reverse_bytes [] h = tt
All-reverse_bytes (b ∷ bs) h =
    AreBytes-append (reverse_bytes bs) (b ∷ []) (All-reverse_bytes bs h.1) (h.0, tt)

leading-bytes : (str : Text) → AreBytes (leading str)
leading-bytes [] = tt
leading-bytes (c ∷ str) = elim (Bool-cases (c == 49)) [
  | inl e ↦ rw e (omega arith, leading-bytes str)
  | inr e ↦ rw e tt
]

-- A text that is decoded, in either mode, gives bytes, and as a number they are what its digits stand for.
pub base58_decode-value :
    (str : Text) (strict : Bool) (bytes : Bytes)
    → base58_decode str strict ≡ ok bytes
    → (be_value bytes ≡ base58_value 0 str) × AreBytes bytes
unfolding base58_decode
base58_decode-value str strict bytes e =
    let (out, f, g) = bind_ok (decode_onto strict (0 ∷ []) str) _ e in
    subst (λ bs. (be_value bs ≡ base58_value 0 str) × AreBytes bs) (ok-injective g)
      (
        be_value-reverse_bytes (out ++ leading str)
            ∙ le_value-leading out str
            ∙ decode_onto-value strict (0 ∷ []) str out f,
        All-reverse_bytes (out ++ leading str) (
            AreBytes-append out (leading str)
              (decode_onto-bytes strict (0 ∷ []) str out (omega arith, tt) f) (leading-bytes str)),
      )
