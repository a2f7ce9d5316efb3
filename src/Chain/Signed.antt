-- ===== src/Chain/Signed.antt =====
-- Signed inputs spend the coins they are made from, and can be read back.
use simply_sats.Prelude.{
  ℕ, zero, suc, ◌+◌, ◌^◌, ◌<◌, ◌≤◌, ◌≡◌, refl, sym, ap, ◌∙◌, List, [], ◌∷◌, ◌++◌, map, length,
  length-append, take, drop, length-take_le, All, Result, ok, err, bind_ok, ok-injective, subst,
  arith,
}
use simply_sats.Chain.{Bytes, ChainError, Crypto}
use simply_sats.Chain.Bytes.{write_var_int, slice}
use simply_sats.Chain.Scripts.{
  SighashInput, p2pkh_unlocking_script, compute_sighash, sign_hash, compact_to_der, encode_integer,
  strip, pad_high, with_length, sighash_all_forkid,
}
use simply_sats.Chain.Serialize.{TxInput}
use simply_sats.Chain.Signing.{TxUtxo, Keys, sign_input, sign_inputs}
use simply_sats.Chain.Building.{TxOutpoint, outpoint_of}
use simply_sats.Chain.Reading.Transactions.{IsHex, IsInput}

length-strip_le : (bs : Bytes) → length (strip bs) ≤ length bs
length-strip_le [] = omega arith
length-strip_le (b ∷ []) = omega arith
length-strip_le (zero ∷ c ∷ bs) = omega (arith, length-strip_le (c ∷ bs))
length-strip_le (suc b ∷ c ∷ bs) = omega arith

length-pad_high_le : (bs : Bytes) → length (pad_high bs) ≤ suc (length bs)
length-pad_high_le [] = omega arith
length-pad_high_le (b ∷ bs) = ground arith

length-encode_integer_le : (n : ℕ) (bs : Bytes) → length (encode_integer (take n bs)) ≤ suc n
length-encode_integer_le n bs = omega (
  arith,
  length-pad_high_le (strip (take n bs)),
  length-strip_le (take n bs),
  length-take_le n bs,
)

-- A DER signature has at most 72 bytes.
length-compact_to_der_le : (compact : Bytes) → length (compact_to_der compact) ≤ 72
unfolding compact_to_der
length-compact_to_der_le compact =
    let r = encode_integer (slice 0 32 compact) in
    let s = encode_integer (slice 32 64 compact) in
    omega (
      arith,
      length-append r (2 ∷ length s ∷ s),
      length-encode_integer_le 32 compact,
      length-encode_integer_le 32 (drop 32 compact),
    )

abbrev size : Result Bytes ChainError → ℕ
size (ok b) = length b
size (err e) = 0

size-write_var_int_le : (n : ℕ) → size (write_var_int n) ≤ 5
unfolding write_var_int
size-write_var_int_le n = ground arith

length-with_length_le : (bs b : Bytes) → with_length bs ≡ ok b → length b ≤ 5 + length bs
length-with_length_le bs b e =
    let (n, f, g) = bind_ok (write_var_int (length bs)) (λ n. ok (n ++ bs)) e in
    omega (arith, size-write_var_int_le (length bs), ap size f, ap size g, length-append n bs)

-- What the curve's compressed public keys are documented to be.
abbrev pub HasCompressedKeys : Crypto → Type 0
HasCompressedKeys crypto = (k p : Bytes) → crypto.get_public_key k ≡ ok p → length p ≡ 33

-- The coins that a transaction can spend: a txid of 32 bytes, and an index of 32 bits.
abbrev pub IsSpendable : TxUtxo → Type 0
IsSpendable u = IsHex 32 u.txid × (u.vout < 2 ^ 32)

abbrev pub spent_by : TxInput → TxOutpoint
spent_by i = record { txid = i.txid; vout = i.vout }

length-p2pkh_unlocking_script_le :
    (sig key script : Bytes)
    → p2pkh_unlocking_script sig key ≡ ok script
    → length script ≤ 11 + length sig + length key
length-p2pkh_unlocking_script_le sig key script e =
    let (a, f, e1) = bind_ok (with_length (sig ++ (sighash_all_forkid ∷ []))) _ e in
    let (b, g, e2) = bind_ok (with_length key) (λ b. ok (a ++ b)) e1 in
    omega (
      arith,
      length-with_length_le _ a f,
      length-with_length_le key b g,
      ap size e2,
      length-append a b,
      length-append sig (sighash_all_forkid ∷ []),
    )

module _ (crypto : Crypto) where
  length-sign_hash_le :
      (key hash sig : Bytes) → sign_hash crypto key hash ≡ ok sig → length sig ≤ 72
  unfolding sign_hash
  length-sign_hash_le key hash sig e =
      let (c, f, g) = bind_ok (crypto.sign hash key) (λ c. ok (compact_to_der c)) e in
      omega (arith, length-compact_to_der_le c, ap size g)

  sign_input-IsInput :
      (keys : Keys) (all : List SighashInput) (bytes : Bytes) (i : ℕ) (u : TxUtxo) (input : TxInput)
      → length keys.pub_key ≡ 33
      → IsSpendable u
      → sign_input crypto keys all bytes i u ≡ ok input
      → IsInput input × (spent_by input ≡ outpoint_of u)
  unfolding sign_input
  sign_input-IsInput keys all bytes i u input k h e =
      let (hash, f, e1) = bind_ok (compute_sighash crypto all bytes i sighash_all_forkid) _ e in
      let (sig, g, e2) = bind_ok (sign_hash crypto keys.priv_key hash) _ e1 in
      let (script, p, e3) = bind_ok (p2pkh_unlocking_script sig keys.pub_key) _ e2 in
      subst (λ inp. IsInput inp × (spent_by inp ≡ outpoint_of u)) (ok-injective e3)
        (
          (
            h.0,
            h.1,
            omega (
              arith,
              k,
              length-sign_hash_le keys.priv_key hash sig g,
              length-p2pkh_unlocking_script_le sig keys.pub_key script p,
            ),
            omega arith,
          ),
          refl,
        )

  -- Signed inputs can be read back, and spend the coins one by one.
  pub sign_inputs-IsInput :
      {A : Type 0} (coin : A → TxUtxo) (keys_of : A → Result Keys ChainError)
      (all : List SighashInput) (bytes : Bytes) (i : ℕ) (xs : List A) (inputs : List TxInput)
      → ((x : A) (keys : Keys) → keys_of x ≡ ok keys → length keys.pub_key ≡ 33)
      → All (λ x. IsSpendable (coin x)) xs
      → sign_inputs crypto coin keys_of all bytes i xs ≡ ok inputs
      → All IsInput inputs × (map spent_by inputs ≡ map (λ x. outpoint_of (coin x)) xs)
  unfolding sign_inputs
  sign_inputs-IsInput coin keys_of all bytes i [] inputs k h e =
      subst (λ is. All IsInput is × (map spent_by is ≡ [])) (ok-injective e) (tt, refl)
  sign_inputs-IsInput coin keys_of all bytes i (x ∷ xs) inputs k h e =
      let (keys, f, e1) = bind_ok (keys_of x) _ e in
      let (input, g, e2) = bind_ok (sign_input crypto keys all bytes i (coin x)) _ e1 in
      let (rest, p, e3) = bind_ok (sign_inputs crypto coin keys_of all bytes (suc i) xs) _ e2 in
      let one = sign_input-IsInput keys all bytes i (coin x) input (k x keys f) h.0 g in
      let more = sign_inputs-IsInput coin keys_of all bytes (suc i) xs rest k h.1 p in
      subst (λ is. All IsInput is × (map spent_by is ≡ map (λ x. outpoint_of (coin x)) (x ∷ xs)))
        (ok-injective e3) ((one.0, more.0), rw (one.1, more.1) refl)

  pub length-sign_inputs :
      {A : Type 0} (coin : A → TxUtxo) (keys_of : A → Result Keys ChainError)
      (all : List SighashInput) (bytes : Bytes) (i : ℕ) (xs : List A) (inputs : List TxInput)
      → sign_inputs crypto coin keys_of all bytes i xs ≡ ok inputs
      → length inputs ≡ length xs
  unfolding sign_inputs
  length-sign_inputs coin keys_of all bytes i [] inputs e = ap length (sym (ok-injective e))
  length-sign_inputs coin keys_of all bytes i (x ∷ xs) inputs e =
      let (keys, f, e1) = bind_ok (keys_of x) _ e in
      let (input, g, e2) = bind_ok (sign_input crypto keys all bytes i (coin x)) _ e1 in
      let (rest, p, e3) = bind_ok (sign_inputs crypto coin keys_of all bytes (suc i) xs) _ e2 in
      ap length (sym (ok-injective e3))
      ∙ ap suc (length-sign_inputs coin keys_of all bytes (suc i) xs rest p)
