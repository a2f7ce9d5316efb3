-- ===== src/Locks/Assembly.antt =====
-- The text that a timelock program assembles to.
use simply_sats.Prelude.{
  ℕ, ◌*◌, ◌/◌, ◌%◌, ◌≤◌, ◌≡◌, refl, ap, sym, ◌∙◌, true, List, [], ◌∷◌, ◌++◌, length, append_assoc,
  Result, ok, err, Result-cases, leb_iff, arith, inl, inr,
}
use simply_sats.Hex.{HexText, byte_hex, int2_hex}
use simply_sats.Hex.RoundTrip.{length-int2_hex_ge}
use simply_sats.Locks.Asm.{Token, hex, push_data, token_hex, asm_to_hex, length_hex}
use simply_sats.Locks.Template.{lockup_prefix, lockup_suffix, timelock_script_signature}
use simply_sats.Locks.Script.{create_timelock_script, starts_with}

abbrev pub or_nothing : Result HexText ℕ → HexText
or_nothing (ok h) = h
or_nothing (err e) = []

abbrev pub prefix_hex : HexText
prefix_hex = or_nothing (asm_to_hex lockup_prefix)

abbrev pub suffix_hex : HexText
suffix_hex = or_nothing (asm_to_hex lockup_suffix)

asm_to_hex-prefix : asm_to_hex lockup_prefix ≡ ok prefix_hex
unfolding asm_to_hex token_hex push_data
asm_to_hex-prefix = refl

asm_to_hex-suffix : asm_to_hex lockup_suffix ≡ ok suffix_hex
unfolding asm_to_hex token_hex push_data lockup_suffix
asm_to_hex-suffix = refl

pub length-prefix_hex : length prefix_hex ≡ 204
unfolding asm_to_hex token_hex push_data
length-prefix_hex = refl

pub starts_with-prefix_hex :
    (tail : HexText) → starts_with (prefix_hex ++ tail) timelock_script_signature ≡ true
unfolding asm_to_hex token_hex push_data
starts_with-prefix_hex tail = refl

cons_hex :
    (t : Token) (ts : List Token) (a b : HexText)
    → token_hex t ≡ ok a
    → asm_to_hex ts ≡ ok b
    → asm_to_hex (t ∷ ts) ≡ ok (a ++ b)
unfolding asm_to_hex
cons_hex t ts a b g i = rw (g, i) refl

asm_to_hex-append :
    (ts us : List Token) (h : HexText)
    → asm_to_hex ts ≡ ok h
    → (rest : HexText) → asm_to_hex us ≡ ok rest
    → asm_to_hex (ts ++ us) ≡ ok (h ++ rest)
unfolding asm_to_hex
asm_to_hex-append [] us h e rest f = f ∙ ap (λ x. ok (x ++ rest)) (ap or_nothing e)
asm_to_hex-append (t ∷ ts) us h e rest f = elim (Result-cases (token_hex t)) [
  | inl (a, g) ↦ elim (Result-cases (asm_to_hex ts)) [
    | inl (b, i) ↦
        rw (g, asm_to_hex-append ts us b i rest f)
          (ap ok (
            sym (append_assoc a b rest)
            ∙ ap (λ x. x ++ rest) (ap or_nothing (sym (cons_hex t ts a b g i) ∙ e))))
    | inr (x, i) ↦ absurd (ground (arith, e, g, i))
  ]
  | inr (x, g) ↦ absurd (ground (arith, e, g))
]

twice_even : (k : ℕ) → k * 2 % 2 ≡ 0
twice_even k = omega arith

twice_half : (k : ℕ) → k * 2 / 2 ≡ k
twice_half k = omega arith

length_hex-even : (digits k : ℕ) → digits ≡ k * 2 → length_hex digits ≡ byte_hex k
length_hex-even digits k e = rw (e, twice_even k, twice_half k) refl

-- Data of one byte or more, up to 75.
token_hex-data :
    (ds : HexText) (k : ℕ)
    → length ds ≡ k * 2
    → 1 ≤ k
    → k ≤ 75
    → token_hex (hex ds) ≡ ok (byte_hex k ++ ds)
unfolding token_hex push_data
token_hex-data [] k e l u = absurd (omega arith)
token_hex-data (d ∷ []) k e l u = absurd (omega (arith, e))
token_hex-data (d ∷ f ∷ ds) k e l u =
    rw
      (
        (leb_iff 2 (length (d ∷ f ∷ ds))).1 (omega arith),
        (leb_iff (length (d ∷ f ∷ ds)) 150).1 (omega arith),
      )
      (ap (λ b. ok (b ++ d ∷ f ∷ ds)) (length_hex-even _ k e))

-- The text of a created script: the prefix, the pushed hash, the pushed height and the suffix.
pub create_timelock_script-text :
    (pkh : HexText) (n k : ℕ)
    → length pkh ≡ 40
    → length (int2_hex n) ≡ k * 2
    → k ≤ 75
    → create_timelock_script pkh n
      ≡ ok (prefix_hex ++ (1 ∷ 4 ∷ (pkh ++ (byte_hex k ++ (int2_hex n ++ suffix_hex)))))
unfolding create_timelock_script
create_timelock_script-text pkh n k p e u =
    asm_to_hex-append lockup_prefix (hex pkh ∷ hex (int2_hex n) ∷ lockup_suffix) prefix_hex
      asm_to_hex-prefix _
      (cons_hex (hex pkh) (hex (int2_hex n) ∷ lockup_suffix) _ _
        (token_hex-data pkh 20 (omega (arith, p)) (omega arith) (omega arith))
        (cons_hex (hex (int2_hex n)) lockup_suffix _ _
          (token_hex-data (int2_hex n) k e (omega (arith, e, length-int2_hex_ge n)) u)
          asm_to_hex-suffix))
