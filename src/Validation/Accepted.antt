-- ===== src/Validation/Accepted.antt =====
-- What is known of an accepted address.
use simply_sats.Prelude.{
  ℕ, ◌≤◌, ◌≡◌, refl, sym, ap, ◌∙◌, Bool, none, zero, suc, true, false, not, ◌&&◌, ◌||◌, [], ◌∷◌,
  ◌++◌, length, take, Result, ok, err, ◌>>=◌, bind_ok, ◌==◌, ==_iff, ltb, if◌then◌else◌,
  Option-cases, inl, inr, arith,
}
use simply_sats.Chain.{Bytes}
use simply_sats.Chain.Bytes.{bytes_to_hex, slice, reverse_bytes}
use simply_sats.Chain.Scripts.{p2pkh_locking_script}
use simply_sats.Base58.{
  Text, Base58Error, invalid_character, too_short, base58_chars, index_of, decode_onto, times_58,
  leading, base58_decode, p2pkh_locking_script_hex,
}
use simply_sats.Base58.Values.{decode_onto-digit}
use simply_sats.Base58.Watching.{bytes_to_hex-append}
use simply_sats.Validation.{
  sha256d, starts_with_char, agree, payload, checksum, checks_out, is_valid_bsv_address,
}

both : (x y : Bool) → x && y ≡ true → (x ≡ true) × (y ≡ true)
both true true h = (refl, refl)
both true false h = absurd (ground arith)
both false y h = absurd (ground arith)

decode_onto-strict :
    (bytes : Bytes) (c : ℕ) (cs : Text)
    → index_of c base58_chars ≡ none
    → decode_onto true bytes (c ∷ cs) ≡ err invalid_character
unfolding decode_onto
decode_onto-strict bytes c cs f = rw (f, decode_onto) refl

not_ok : {out : Bytes} → ◌≡◌ {A = Result Bytes Base58Error} (err invalid_character) (ok out) → ⊥
not_ok h = ground arith

-- What is decoded in strict mode is decoded alike in the other.
decode_onto-lenient :
    (bytes : Bytes) (str : Text) (out : Bytes)
    → decode_onto true bytes str ≡ ok out
    → decode_onto false bytes str ≡ ok out
unfolding decode_onto
decode_onto-lenient bytes [] out e = e
decode_onto-lenient bytes (c ∷ cs) out e = elim (Option-cases (index_of c base58_chars)) [
  | inl f ↦ absurd (not_ok (sym (decode_onto-strict bytes c cs f) ∙ e))
  | inr (v, f) ↦
      decode_onto-digit false bytes c v cs f
      ∙ decode_onto-lenient (times_58 v bytes) cs out
          (sym (decode_onto-digit true bytes c v cs f) ∙ e)
]

base58_decode-lenient :
    (str : Text) (bytes : Bytes)
    → base58_decode str true ≡ ok bytes
    → base58_decode str false ≡ ok bytes
unfolding base58_decode
base58_decode-lenient str bytes e =
    let (out, f, g) = bind_ok (decode_onto true (0 ∷ []) str) _ e in
    ap (λ r. r >>= λ out. ok (reverse_bytes (out ++ leading str)))
      (decode_onto-lenient (0 ∷ []) str out f)
    ∙ g

agree-take : (n : ℕ) (hash check : Bytes) → agree n hash check ≡ true → take n hash ≡ take n check
agree-take zero hash check h = refl
agree-take (suc n) [] check h = absurd (ground arith)
agree-take (suc n) (a ∷ hash) [] h = absurd (ground arith)
agree-take (suc n) (a ∷ hash) (c ∷ check) h =
    let (e, more) = both (a == c) (agree n hash check) h in
    ap (λ x. x ∷ take n hash) ((==_iff a c).0 e) ∙ ap (◌∷◌ c) (agree-take n hash check more)

long_enough : (n : ℕ) → not (ltb n 5) ≡ true → 5 ≤ n
long_enough n h = ground arith

-- What the checks of decoded bytes say.
checks_out-decoded :
    (r : Result Bytes Base58Error)
    → checks_out r ≡ true
    → (bytes : Bytes) × (r ≡ ok bytes)
      × (5 ≤ length bytes)
      × (take 4 (sha256d (payload bytes)) ≡ take 4 (checksum bytes))
      × ((starts_with_char 0 (payload bytes) || starts_with_char 5 (payload bytes)) ≡ true)
unfolding checks_out
checks_out-decoded (err e) h = absurd (ground arith)
checks_out-decoded (ok bytes) h =
    let long = not (ltb (length bytes) 5) in
    let same = agree 4 (sha256d (payload bytes)) (checksum bytes) in
    let (p, version) =
      both (long && same) (starts_with_char 0 (payload bytes) || starts_with_char 5 (payload bytes))
        h in
    let (enough, check) = both long same p in
    (
      bytes,
      refl,
      long_enough (length bytes) enough,
      agree-take 4 (sha256d (payload bytes)) (checksum bytes) check,
      version,
    )

-- An accepted address decodes, strictly or not, to the same bytes, five or more; the last four are the first
-- of the double hash of the others, whose first byte is 0 or 5. The script watched for it is refused below 25
-- bytes, and otherwise pays to the public key hash in the 20 bytes behind that first byte, whichever it is.
pub is_valid_bsv_address-accepted :
    (address : Text)
    → is_valid_bsv_address address ≡ true
    → (bytes : Bytes) × (base58_decode address true ≡ ok bytes)
      × (base58_decode address false ≡ ok bytes)
      × (5 ≤ length bytes)
      × (take 4 (sha256d (payload bytes)) ≡ take 4 (checksum bytes))
      × ((starts_with_char 0 (payload bytes) || starts_with_char 5 (payload bytes)) ≡ true)
      × (p2pkh_locking_script_hex address ≡ (
          if ltb (length bytes) 25
          then err (too_short (length bytes))
          else ok (bytes_to_hex (p2pkh_locking_script (slice 1 21 bytes)))))
unfolding is_valid_bsv_address p2pkh_locking_script_hex
is_valid_bsv_address-accepted address h =
    let (form, check) = both _ (checks_out (base58_decode address true)) h in
    let (bytes, strict, long, same, version) =
      checks_out-decoded (base58_decode address true) check in
    let lenient = base58_decode-lenient address bytes strict in
    (
      bytes,
      strict,
      lenient,
      long,
      same,
      version,
      rw (lenient) (
          ap
            (λ t.
              if ltb (length bytes) 25
              then err (too_short (length bytes))
              else ok (7 ∷ 6 ∷ 10 ∷ 9 ∷ 1 ∷ 4 ∷ t))
            (sym (bytes_to_hex-append (slice 1 21 bytes) (0x88 ∷ 0xac ∷ [])))),
    )
