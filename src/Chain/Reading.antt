-- ===== src/Chain/Reading.antt =====
-- A reader of serialised transactions, written from the format, and what it reads of the serialised ones.
pub mod Numbers
pub mod Transactions
use simply_sats.Prelude.{
  ℕ, zero, suc, ◌+◌, ◌*◌, Option, none, some, List, [], ◌∷◌, ltb, ◌==◌, ◌&&◌, if◌then◌else◌,
}
use simply_sats.Chain.{Bytes}
use simply_sats.Chain.Bytes.{reverse_bytes, bytes_to_hex}
use simply_sats.Chain.Serialize.{TxInput, TxOutput}

-- What was read, and the rest.
abbrev pub Reader : Type 0 → Type 0
Reader A = Bytes → Option (A × Bytes)

abbrev pub then_read : {A B : Type 0} → Option (A × Bytes) → (A → Reader B) → Option (B × Bytes)
then_read none f = none
then_read (some (a, rest)) f = f a rest

unfoldable pub read_le : ℕ → Reader ℕ
read_le zero bs = some (0, bs)
read_le (suc k) [] = none
read_le (suc k) (b ∷ bs) = then_read (read_le k bs) (λ n rest. some (b + 256 * n, rest))

unfoldable pub read_bytes : ℕ → Reader Bytes
read_bytes zero bs = some ([], bs)
read_bytes (suc n) [] = none
read_bytes (suc n) (b ∷ bs) = then_read (read_bytes n bs) (λ xs rest. some (b ∷ xs, rest))

unfoldable pub read_var_int : Reader ℕ
unfolding read_le
read_var_int [] = none
read_var_int (b ∷ bs) =
    if ltb b 0xfd
    then some (b, bs)
    else if b == 0xfd
    then read_le 2 bs
    else if b == 0xfe
    then read_le 4 bs
    else read_le 8 bs

unfoldable pub read_many : {A : Type 0} → ℕ → Reader A → Reader (List A)
read_many zero read bs = some ([], bs)
read_many (suc n) read bs =
    then_read (read bs) (λ x rest. then_read (read_many n read rest) (λ xs r. some (x ∷ xs, r)))

-- A length, and that many bytes.
unfoldable pub read_sized : Reader Bytes
unfolding read_bytes read_var_int
read_sized bs = then_read (read_var_int bs) read_bytes

unfoldable pub read_input : Reader TxInput
unfolding read_bytes read_le read_sized
read_input bs = then_read (read_bytes 32 bs) (λ hash r1. then_read (read_le 4 r1) (λ vout r2.
    then_read (read_sized r2) (λ script r3. then_read (read_le 4 r3) (λ seq r4. some (
      record {
        txid = bytes_to_hex (reverse_bytes hash);
        vout = vout;
        script_sig = script;
        sequence = seq;
      },
      r4,
    )))))

unfoldable pub read_output : Reader TxOutput
unfolding read_le read_sized
read_output bs = then_read (read_le 8 bs) (λ satoshis r1.
    then_read (read_sized r1)
      (λ script r2. some (record { satoshis = satoshis; script = script }, r2)))

abbrev whole :
    Option ((ℕ × ℕ × (List TxInput × List TxOutput)) × Bytes)
    → Option (List TxInput × List TxOutput)
whole none = none
whole (some (parts, b ∷ rest)) = none
whole (some ((version, locktime, both), [])) =
    if (version == 1) && (locktime == 0) then some both else none

-- The inputs and outputs of a transaction of version 1 with lock time 0 that takes up all bytes.
unfoldable pub read_transaction : Bytes → Option (List TxInput × List TxOutput)
unfolding read_le read_many read_input read_output read_var_int
read_transaction raw =
    let parts = then_read (read_le 4 raw) (λ version r1. then_read (read_var_int r1) (λ n r2.
      then_read (read_many n read_input r2) (λ inputs r3. then_read (read_var_int r3) (λ m r4.
        then_read (read_many m read_output r4) (λ outputs r5.
          then_read (read_le 4 r5)
            (λ locktime r6. some ((version, locktime, (inputs, outputs)), r6))))))) in
    whole parts
