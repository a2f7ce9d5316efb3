-- ===== src/Chain/Reading/Numbers.antt =====
-- Numbers and sized bytes are read back.
use simply_sats.Prelude.{
  ℕ, zero, suc, ◌/◌, ◌^◌, ◌<◌, ◌≡◌, refl, sym, ap, some, [], ◌∷◌, ◌++◌, append_assoc, length,
  Result, ok, ltb, leb, leb_iff, Bool-cases, inl, inr, arith,
}
use simply_sats.Chain.{Bytes, ChainError}
use simply_sats.Chain.Bytes.{le_bytes, write_uint32_le, write_uint64_le, write_var_int}
use simply_sats.Chain.Scripts.{with_length}
use simply_sats.Chain.Reading.{Reader, read_le, read_bytes, read_var_int, read_sized}

-- A number that has `k` bytes.
abbrev pub Fits : ℕ → ℕ → Type 0
Fits zero n = n ≡ 0
Fits (suc k) n = Fits k (n / 256)

read_le-le_bytes :
    (k n : ℕ) (rest : Bytes) → Fits k n → read_le k (le_bytes k n ++ rest) ≡ some (n, rest)
unfolding read_le
read_le-le_bytes zero n rest h = rw h refl
read_le-le_bytes (suc k) n rest h =
    rw (read_le-le_bytes k (n / 256) rest h) (ap (λ m. some (m, rest)) (omega arith))

pub read_bytes-append : (bs rest : Bytes) → read_bytes (length bs) (bs ++ rest) ≡ some (bs, rest)
unfolding read_bytes
read_bytes-append [] rest = refl
read_bytes-append (b ∷ bs) rest = rw (read_bytes-append bs rest) refl

pub read_bytes-sized :
    (n : ℕ) (bs rest : Bytes) → length bs ≡ n → read_bytes n (bs ++ rest) ≡ some (bs, rest)
read_bytes-sized n bs rest e = rw (sym e) (read_bytes-append bs rest)

-- The writer returns bytes from which the reader takes the value, whatever follows them.
abbrev pub IsReadBack : {A : Type 0} → Result Bytes ChainError → Reader A → A → Type 0
IsReadBack written read a =
    (bytes : Bytes) × (written ≡ ok bytes)
    × ((rest : Bytes) → read (bytes ++ rest) ≡ some (a, rest))

pub write_var_int-IsReadBack : (n : ℕ) → n < 2 ^ 32 → IsReadBack (write_var_int n) read_var_int n
unfolding write_var_int read_var_int
write_var_int-IsReadBack n h = elim (Bool-cases (ltb n 0xfd)) [
  | inl e ↦ (n ∷ [], rw e refl, λ rest. rw e refl)
  | inr e ↦ elim (Bool-cases (leb n 0xffff)) [
    | inl f ↦
        (0xfd ∷ le_bytes 2 n, rw (e, f) refl, λ rest. read_le-le_bytes 2 n rest (ground (arith, f)))
    | inr f ↦ (
      0xfe ∷ le_bytes 4 n,
      rw (e, f, (leb_iff n 0xffffffff).1 (omega arith)) refl,
      λ rest. read_le-le_bytes 4 n rest (omega arith),
    )
  ]
]

pub with_length-IsReadBack :
    (bs : Bytes) → length bs < 2 ^ 32 → IsReadBack (with_length bs) read_sized bs
unfolding read_sized
with_length-IsReadBack bs h =
    let (n, e, r) = write_var_int-IsReadBack (length bs) h in
    (
      n ++ bs,
      rw e refl,
      λ rest. rw (append_assoc n bs rest, r (bs ++ rest)) (read_bytes-append bs rest),
    )

pub read_le-write_uint64_le :
    (n : ℕ) (rest : Bytes) → n < 2 ^ 64 → read_le 8 (write_uint64_le n ++ rest) ≡ some (n, rest)
unfolding write_uint64_le read_le
read_le-write_uint64_le n rest h = ap (λ m. some (m, rest)) (omega arith)

pub read_le-write_uint32_le :
    (n : ℕ) (rest : Bytes) → n < 2 ^ 32 → read_le 4 (write_uint32_le n ++ rest) ≡ some (n, rest)
unfolding write_uint32_le
read_le-write_uint32_le n rest h = read_le-le_bytes 4 n rest (omega arith)
