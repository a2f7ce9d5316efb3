-- ===== src/Chain/Reading/Transactions.antt =====
-- Serialised transactions are read back.
use simply_sats.Prelude.{
  ℕ, zero, suc, ◌+◌, ◌*◌, ◌/◌, ◌%◌, ◌^◌, ◌<◌, ◌≡◌, refl, ap, ◌∙◌, some, List, [], ◌∷◌, ◌++◌,
  append_assoc, length, length-append, All, Result, ok, ◌>>=◌, arith,
}
use simply_sats.Hex.{HexText}
use simply_sats.Chain.{Bytes, ChainError}
use simply_sats.Chain.Bytes.{
  write_uint64_le, write_uint32_le, reverse_bytes, hex_to_bytes, bytes_to_hex,
}
use simply_sats.Chain.Serialize.{
  TxInput, TxOutput, write_input, write_output, write_all, serialize_transaction,
}
use simply_sats.Chain.Reading.{
  Reader, read_le, read_many, read_input, read_output, read_transaction,
}
use simply_sats.Chain.Reading.Numbers.{
  read_bytes-sized, IsReadBack, write_var_int-IsReadBack, with_length-IsReadBack,
  read_le-write_uint64_le, read_le-write_uint32_le,
}

reverse_bytes-append : (bs : Bytes) (b : ℕ) → reverse_bytes (bs ++ (b ∷ [])) ≡ b ∷ reverse_bytes bs
reverse_bytes-append [] b = refl
reverse_bytes-append (a ∷ bs) b = ap (λ l. l ++ (a ∷ [])) (reverse_bytes-append bs b)

reverse_bytes-twice : (bs : Bytes) → reverse_bytes (reverse_bytes bs) ≡ bs
reverse_bytes-twice [] = refl
reverse_bytes-twice (b ∷ bs) =
    reverse_bytes-append (reverse_bytes bs) b ∙ ap (◌∷◌ b) (reverse_bytes-twice bs)

length-reverse_bytes : (bs : Bytes) → length (reverse_bytes bs) ≡ length bs
length-reverse_bytes [] = refl
length-reverse_bytes (b ∷ bs) =
    omega (arith, length-append (reverse_bytes bs) (b ∷ []), length-reverse_bytes bs)

-- `2 * n` digits, each below 16.
abbrev pub IsHex : ℕ → HexText → Type 0
IsHex zero ds = ds ≡ []
IsHex (suc n) [] = ⊥
IsHex (suc n) (d ∷ []) = ⊥
IsHex (suc n) (d ∷ e ∷ ds) = (d < 16) × (e < 16) × IsHex n ds

digit_high : (d e : ℕ) → e < 16 → (d * 16 + e) / 16 ≡ d
digit_high d e h = omega arith

digit_low : (d e : ℕ) → e < 16 → (d * 16 + e) % 16 ≡ e
digit_low d e h = omega arith

bytes_to_hex-hex_to_bytes :
    (n : ℕ) (ds : HexText) → IsHex n ds → bytes_to_hex (hex_to_bytes ds) ≡ ds
bytes_to_hex-hex_to_bytes zero ds h = rw h refl
bytes_to_hex-hex_to_bytes (suc n) [] h = absurd h
bytes_to_hex-hex_to_bytes (suc n) (d ∷ []) h = absurd h
bytes_to_hex-hex_to_bytes (suc n) (d ∷ e ∷ ds) h =
    rw (bytes_to_hex-hex_to_bytes n ds h.2, digit_high d e h.1, digit_low d e h.1) refl

length-hex_to_bytes : (n : ℕ) (ds : HexText) → IsHex n ds → length (hex_to_bytes ds) ≡ n
length-hex_to_bytes zero ds h = rw h refl
length-hex_to_bytes (suc n) [] h = absurd h
length-hex_to_bytes (suc n) (d ∷ []) h = absurd h
length-hex_to_bytes (suc n) (d ∷ e ∷ ds) h = ap suc (length-hex_to_bytes n ds h.2)

-- A txid of 32 bytes, numbers of 32 bits, and a script that can be counted.
abbrev pub IsInput : TxInput → Type 0
IsInput i =
    IsHex 32 i.txid × (i.vout < 2 ^ 32) × (length i.script_sig < 2 ^ 32) × (i.sequence < 2 ^ 32)

abbrev pub IsOutput : TxOutput → Type 0
IsOutput o = (o.satoshis < 2 ^ 64) × (length o.script < 2 ^ 32)

write_output-IsReadBack : (o : TxOutput) → IsOutput o → IsReadBack (write_output o) read_output o
unfolding write_output read_output
write_output-IsReadBack o h =
    let (b, e, r) = with_length-IsReadBack o.script h.1 in
    (
      write_uint64_le o.satoshis ++ b,
      rw e refl,
      λ rest.
          rw
            (
              append_assoc (write_uint64_le o.satoshis) b rest,
              read_le-write_uint64_le o.satoshis (b ++ rest) h.0,
              r rest,
            )
            refl,
    )

length-hash : (t : HexText) → IsHex 32 t → length (reverse_bytes (hex_to_bytes t)) ≡ 32
length-hash t h = length-reverse_bytes (hex_to_bytes t) ∙ length-hex_to_bytes 32 t h

write_input-IsReadBack : (i : TxInput) → IsInput i → IsReadBack (write_input i) read_input i
unfolding write_input read_input
write_input-IsReadBack i h =
    let (b, e, r) = with_length-IsReadBack i.script_sig h.2 in
    let hash = reverse_bytes (hex_to_bytes i.txid) in
    let vout = write_uint32_le i.vout in
    let seq = write_uint32_le i.sequence in
    (
      hash ++ (vout ++ (b ++ seq)),
      rw e refl,
      λ rest.
          rw
            (
              append_assoc hash (vout ++ (b ++ seq)) rest,
              append_assoc vout (b ++ seq) rest,
              append_assoc b seq rest,
              read_bytes-sized 32 hash (vout ++ (b ++ (seq ++ rest))) (length-hash i.txid h.0),
              read_le-write_uint32_le i.vout (b ++ (seq ++ rest)) h.1,
              r (seq ++ rest),
              read_le-write_uint32_le i.sequence rest h.3,
              reverse_bytes-twice (hex_to_bytes i.txid),
              bytes_to_hex-hex_to_bytes 32 i.txid h.0,
            )
            refl,
    )

write_all-IsReadBack :
    {A : Type 0} {P : A → Type 0} (write : A → Result Bytes ChainError) (read : Reader A)
    → ((a : A) → P a → IsReadBack (write a) read a)
    → (xs : List A) → All P xs
    → IsReadBack (write_all write xs) (read_many (length xs) read) xs
unfolding read_many
write_all-IsReadBack write read back [] all = ([], refl, λ rest. refl)
write_all-IsReadBack write read back (x ∷ xs) all =
    let (a, e, r) = back x all.0 in
    let (b, f, q) = write_all-IsReadBack write read back xs all.1 in
    (a ++ b, rw (e, f) refl, λ rest. rw (append_assoc a b rest, r (b ++ rest), q rest) refl)

read_lock : read_le 4 (write_uint32_le 0) ≡ some (0, [])
unfolding read_le write_uint32_le
read_lock = refl

-- A serialised transaction is read back whole: inputs with 32-byte txids and 32-bit numbers, outputs with
-- amounts below 2 ^ 64, and fewer than 2 ^ 32 of each, with scripts shorter than that.
pub read_transaction-serialize :
    (inputs : List TxInput) (outputs : List TxOutput)
    → All IsInput inputs
    → All IsOutput outputs
    → length inputs < 2 ^ 32
    → length outputs < 2 ^ 32
    → (serialize_transaction inputs outputs >>= λ raw. ok (read_transaction raw))
      ≡ ok (some (inputs, outputs))
unfolding serialize_transaction read_transaction
read_transaction-serialize inputs outputs hi ho li lo =
    let (n, e1, r1) = write_var_int-IsReadBack (length inputs) li in
    let (is, e2, r2) =
      write_all-IsReadBack write_input read_input write_input-IsReadBack inputs hi in
    let (m, e3, r3) = write_var_int-IsReadBack (length outputs) lo in
    let (os, e4, r4) =
      write_all-IsReadBack write_output read_output write_output-IsReadBack outputs ho in
    let lock = write_uint32_le 0 in
    rw
      (
        e1,
        e2,
        e3,
        e4,
        read_le-write_uint32_le 1 (n ++ (is ++ (m ++ (os ++ lock)))) (omega arith),
        r1 (is ++ (m ++ (os ++ lock))),
        r2 (m ++ (os ++ lock)),
        r3 (os ++ lock),
        r4 lock,
        read_lock,
      )
      refl
