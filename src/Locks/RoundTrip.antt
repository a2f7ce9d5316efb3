-- ===== src/Locks/RoundTrip.antt =====
-- What a created timelock script parses to.
use simply_sats.Prelude.{
  ℕ, ◌+◌, ◌-◌, ◌*◌, ◌/◌, ◌^◌, ◌≤◌, ◌<◌, max, min, ◌≡◌, refl, ap, sym, ◌∙◌, false, none, some, ◌∷◌,
  ◌++◌, length, length-append, take, drop, drop-append, take-append, drop_add, ok, ◌>>=◌, ltb,
  ltb_iff, if◌then◌else◌, arith,
}
use simply_sats.Hex.{HexText, value_from, byte_hex, int2_hex, hex2_int}
use simply_sats.Hex.RoundTrip.{
  hex2_int-int2_hex, length-int2_hex_even, length-int2_hex_le, length-int2_hex_gt,
}
use simply_sats.Locks.Assembly.{
  prefix_hex, suffix_hex, length-prefix_hex, starts_with-prefix_hex, create_timelock_script-text,
}
use simply_sats.Locks.Script.{
  create_timelock_script, substring, parsed, with_hash, n_lock_time, parse_timelock_script,
  get_timelock_script_size, noughts,
}

max_add : (a b : ℕ) → max a (a + b) ≡ a + b
max_add a b = omega arith

min_add : (a b : ℕ) → min a (a + b) ≡ a
min_add a b = omega arith

add_sub : (a b : ℕ) → a + b - a ≡ b
add_sub a b = omega arith

substring_lem : (text : HexText) (a b : ℕ) → substring text a (a + b) ≡ take b (drop a text)
substring_lem text a b = rw (max_add a b, min_add a b, add_sub a b) refl

-- The text behind the pushed hash, in a script with a hash of 20 bytes.
module _ (pkh : HexText) (p : length pkh ≡ 40) (tail : HexText) where
  abbrev script : HexText
  script = prefix_hex ++ (1 ∷ 4 ∷ (pkh ++ tail))

  drop-prefix : drop 204 script ≡ 1 ∷ 4 ∷ (pkh ++ tail)
  drop-prefix =
      ap (λ n. drop n script) (sym length-prefix_hex)
      ∙ drop-append prefix_hex (1 ∷ 4 ∷ (pkh ++ tail))

  take-hash : substring script 206 246 ≡ pkh
  take-hash =
      substring_lem script 206 40
      ∙ ap (take 40) (drop_add 204 2 script ∙ ap (drop 2) drop-prefix)
      ∙ ap (λ n. take n (pkh ++ tail)) (sym p)
      ∙ take-append pkh tail

  drop-hash : drop 246 script ≡ tail
  drop-hash =
      drop_add 204 42 script
      ∙ ap (drop 42) drop-prefix
      ∙ ap (λ n. drop n (pkh ++ tail)) (sym p)
      ∙ drop-append pkh tail

  length-script : length script ≡ 204 + (42 + length tail)
  length-script = omega (
    arith,
    p,
    length-append prefix_hex (1 ∷ 4 ∷ (pkh ++ tail)),
    length-append pkh tail,
    length-prefix_hex,
  )

  parse-tail : parse_timelock_script script ≡ with_hash (n_lock_time script 246) pkh
  unfolding parse_timelock_script
  parse-tail =
      rw
        (
          starts_with-prefix_hex (1 ∷ 4 ∷ (pkh ++ tail)),
          substring_lem script 204 2,
          drop-prefix,
          take-hash,
        )
        refl

byte_value : (k : ℕ) → value_from 0 (byte_hex k) ≡ k
byte_value k = omega arith

-- The number behind a push of `k` bytes.
n_lock_time-push :
    (text ds rest : HexText) (start k : ℕ)
    → drop start text ≡ byte_hex k ++ (ds ++ rest)
    → length ds ≡ k * 2
    → n_lock_time text start ≡ (if ltb 4 k then none else some (hex2_int ds))
unfolding hex2_int
n_lock_time-push text ds rest start k e l =
    rw
      (
        substring_lem text start 2,
        e,
        byte_value k,
        substring_lem text (start + 2) (k * 2),
        drop_add start 2 text,
        e,
        sym l,
        take-append ds rest,
      )
      refl

ltb-ge : (a b : ℕ) → b ≤ a → ltb a b ≡ false
ltb-ge a b h = ground arith

-- What the script of a hash of 20 bytes parses to: the height, unless it takes more than 4 bytes.
parse-create_bytes :
    (pkh : HexText) (n : ℕ)
    → length pkh ≡ 40
    → length (int2_hex n) ≤ 150
    → (create_timelock_script pkh n >>= λ s. ok (parse_timelock_script s))
      ≡ ok (with_hash (if ltb 4 (length (int2_hex n) / 2) then none else some (some n)) pkh)
parse-create_bytes pkh n p u =
    let k = length (int2_hex n) / 2 in
    let e : length (int2_hex n) ≡ k * 2 = sym (length-int2_hex_even n) in
    let tail = byte_hex k ++ (int2_hex n ++ suffix_hex) in
    rw (create_timelock_script-text pkh n k p e (omega (arith, u))) (
      ap ok (
        parse-tail pkh p tail
        ∙ ap (λ o. with_hash o pkh)
            (n_lock_time-push (script pkh p tail) (int2_hex n) suffix_hex 246 k
                (drop-hash pkh p tail) e
              ∙ ap (λ m. if ltb 4 k then none else some m) (hex2_int-int2_hex n))))

-- A created script parses to its hash and its height, for a hash of 20 bytes and a height below 2 ^ 32.
pub parse-create :
    (pkh : HexText) (n : ℕ)
    → length pkh ≡ 40
    → n < 2 ^ 32
    → (create_timelock_script pkh n >>= λ s. ok (parse_timelock_script s))
      ≡ ok (some (parsed (some n) pkh))
parse-create pkh n p u =
    let few : length (int2_hex n) ≤ 8 = length-int2_hex_le 4 n (omega arith) (omega arith) in
    parse-create_bytes pkh n p (omega arith)
    ∙ ap (λ b. ok (with_hash (if b then none else some (some n)) pkh)) (ltb-ge _ _ (omega arith))

-- A script created for a height from 2 ^ 32 to 2 ^ 53, with a hash of 20 bytes, is not recognised.
parse-create_high :
    (pkh : HexText) (n : ℕ)
    → length pkh ≡ 40
    → 2 ^ 32 ≤ n
    → n < 2 ^ 53
    → (create_timelock_script pkh n >>= λ s. ok (parse_timelock_script s)) ≡ ok none
parse-create_high pkh n p l u =
    let few : length (int2_hex n) ≤ 14 = length-int2_hex_le 7 n (omega arith) (omega arith) in
    let many : 8 < length (int2_hex n) = length-int2_hex_gt 8 n (omega arith) (omega arith) in
    parse-create_bytes pkh n p (omega arith)
    ∙ ap (λ b. ok (with_hash (if b then none else some (some n)) pkh))
        ((ltb_iff _ _).1 (omega (arith, length-int2_hex_even n)))

-- The size that `getTimelockScriptSize` tells is that of the script created for any hash of 20 bytes.
size-create :
    (public_key_hex pkh : HexText) (n : ℕ)
    → length pkh ≡ 40
    → n < 2 ^ 53
    → get_timelock_script_size public_key_hex n
      ≡ (create_timelock_script pkh n >>= λ s. ok (length s / 2))
unfolding get_timelock_script_size
size-create key pkh n p u =
    let few : length (int2_hex n) ≤ 14 = length-int2_hex_le 7 n (omega arith) (omega arith) in
    let k = length (int2_hex n) / 2 in
    let e : length (int2_hex n) ≡ k * 2 = sym (length-int2_hex_even n) in
    let tail = byte_hex k ++ (int2_hex n ++ suffix_hex) in
    rw
      (
        create_timelock_script-text (noughts 40) n k refl e (omega arith),
        create_timelock_script-text pkh n k p e (omega arith),
      )
      (ap (λ m. ok (m / 2)) (length-script (noughts 40) refl tail ∙ sym (length-script pkh p tail)))
