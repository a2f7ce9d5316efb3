-- ===== src/Validation/Sha256.antt =====
-- The SHA-256 that src/domain/wallet/validation.ts writes out. A 32-bit integer stands as the number
-- below 2 ^ 32 with its bits, so `| 0` is the remainder by 2 ^ 32.
use Prim.Native.Nat.{bit_and, bit_or, bit_xor}
use simply_sats.Prelude.{
  ℕ, zero, suc, ◌+◌, ◌-◌, ◌*◌, ◌/◌, ◌%◌, ◌^◌, List, [], ◌∷◌, ◌++◌, length, take, drop,
}
use simply_sats.Chain.{Bytes}

abbrev int32 : ℕ → ℕ
int32 n = n % 2 ^ 32

abbrev not32 : ℕ → ℕ
not32 x = 2 ^ 32 - 1 - x

-- `(x >>> n) | (x << (32 - n))`
abbrev pub rotr : ℕ → ℕ → ℕ
rotr x n = bit_or (x / 2 ^ n) (int32 (x * 2 ^ (32 - n)))

abbrev pub round_constants : List ℕ
round_constants =
    0x428a2f98 ∷ 0x71374491 ∷ 0xb5c0fbcf ∷ 0xe9b5dba5 ∷ 0x3956c25b ∷ 0x59f111f1 ∷ 0x923f82a4
    ∷ 0xab1c5ed5 ∷ 0xd807aa98 ∷ 0x12835b01 ∷ 0x243185be ∷ 0x550c7dc3 ∷ 0x72be5d74 ∷ 0x80deb1fe
    ∷ 0x9bdc06a7 ∷ 0xc19bf174 ∷ 0xe49b69c1 ∷ 0xefbe4786 ∷ 0x0fc19dc6 ∷ 0x240ca1cc ∷ 0x2de92c6f
    ∷ 0x4a7484aa ∷ 0x5cb0a9dc ∷ 0x76f988da ∷ 0x983e5152 ∷ 0xa831c66d ∷ 0xb00327c8 ∷ 0xbf597fc7
    ∷ 0xc6e00bf3 ∷ 0xd5a79147 ∷ 0x06ca6351 ∷ 0x14292967 ∷ 0x27b70a85 ∷ 0x2e1b2138 ∷ 0x4d2c6dfc
    ∷ 0x53380d13 ∷ 0x650a7354 ∷ 0x766a0abb ∷ 0x81c2c92e ∷ 0x92722c85 ∷ 0xa2bfe8a1 ∷ 0xa81a664b
    ∷ 0xc24b8b70 ∷ 0xc76c51a3 ∷ 0xd192e819 ∷ 0xd6990624 ∷ 0xf40e3585 ∷ 0x106aa070 ∷ 0x19a4c116
    ∷ 0x1e376c08 ∷ 0x2748774c ∷ 0x34b0bcb5 ∷ 0x391c0cb3 ∷ 0x4ed8aa4a ∷ 0x5b9cca4f ∷ 0x682e6ff3
    ∷ 0x748f82ee ∷ 0x78a5636f ∷ 0x84c87814 ∷ 0x8cc70208 ∷ 0x90befffa ∷ 0xa4506ceb ∷ 0xbef9a3f7
    ∷ 0xc67178f2 ∷ []

-- The hash so far, and the eight variables of a block's rounds.
pub record Words : Type 0 where
  pub a : ℕ
  pub b : ℕ
  pub c : ℕ
  pub d : ℕ
  pub e : ℕ
  pub f : ℕ
  pub g : ℕ
  pub h : ℕ

abbrev pub initial : Words
initial = record {
  a = 0x6a09e667;
  b = 0xbb67ae85;
  c = 0x3c6ef372;
  d = 0xa54ff53a;
  e = 0x510e527f;
  f = 0x9b05688c;
  g = 0x1f83d9ab;
  h = 0x5be0cd19;
}

abbrev word_at : ℕ → List ℕ → ℕ
word_at n [] = 0
word_at zero (w ∷ ws) = w
word_at (suc n) (w ∷ ws) = word_at n ws

-- The word 16 places behind the first of a window.
unfoldable pub next_word : List ℕ → ℕ
next_word ws =
    let x = word_at 1 ws in
    let y = word_at 14 ws in
    let s0 = bit_xor (bit_xor (rotr x 7) (rotr x 18)) (x / 2 ^ 3) in
    let s1 = bit_xor (bit_xor (rotr y 17) (rotr y 19)) (y / 2 ^ 10) in
    int32 (word_at 0 ws + s0 + word_at 9 ws + s1)

unfoldable pub round_step : Words → ℕ → ℕ → Words
round_step s k w =
    let sum1 = bit_xor (bit_xor (rotr s.e 6) (rotr s.e 11)) (rotr s.e 25) in
    let ch = bit_xor (bit_and s.e s.f) (bit_and (not32 s.e) s.g) in
    let temp1 = int32 (s.h + sum1 + ch + k + w) in
    let sum0 = bit_xor (bit_xor (rotr s.a 2) (rotr s.a 13)) (rotr s.a 22) in
    let maj = bit_xor (bit_xor (bit_and s.a s.b) (bit_and s.a s.c)) (bit_and s.b s.c) in
    let temp2 = int32 (sum0 + maj) in
    record {
      a = int32 (temp1 + temp2);
      b = s.a;
      c = s.b;
      d = s.c;
      e = int32 (s.d + temp1);
      f = s.e;
      g = s.f;
      h = s.g;
    }

-- The rounds, over a window of the next 16 words of the schedule.
unfoldable pub rounds : List ℕ → List ℕ → Words → Words
unfolding next_word round_step
rounds [] ws s = s
rounds (k ∷ ks) [] s = s
rounds (k ∷ ks) (w ∷ ws) s = rounds ks (ws ++ (next_word (w ∷ ws) ∷ [])) (round_step s k w)

abbrev add_words : Words → Words → Words
add_words s t = record {
  a = int32 (s.a + t.a);
  b = int32 (s.b + t.b);
  c = int32 (s.c + t.c);
  d = int32 (s.d + t.d);
  e = int32 (s.e + t.e);
  f = int32 (s.f + t.f);
  g = int32 (s.g + t.g);
  h = int32 (s.h + t.h);
}

-- `getInt32` along the bytes, with the highest byte first.
abbrev pub be_words : Bytes → List ℕ
be_words (b3 ∷ b2 ∷ b1 ∷ b0 ∷ bs) = (((b3 * 256 + b2) * 256 + b1) * 256 + b0) ∷ be_words bs
be_words bs = []

abbrev zeros : ℕ → Bytes
zeros zero = []
zeros (suc n) = 0 ∷ zeros n

-- `setUint32`
abbrev pub be_bytes : ℕ → Bytes
be_bytes w = (w / 2 ^ 24 % 256) ∷ (w / 2 ^ 16 % 256) ∷ (w / 2 ^ 8 % 256) ∷ (w % 256) ∷ []

-- The number of blocks, `Math.ceil((length + 9) / 64)`.
abbrev pub blocks_of : ℕ → ℕ
blocks_of n = (n + 9 + 63) / 64

-- The length in bits goes into the last 4 bytes; a new array is zero.
unfoldable pub padded : Bytes → Bytes
padded message =
    message
    ++ (0x80
        ∷ (zeros (blocks_of (length message) * 64 - length message - 5)
            ++ be_bytes (length message * 8)))

unfoldable pub hash_blocks : ℕ → Bytes → Words → Words
unfolding rounds
hash_blocks zero bytes s = s
hash_blocks (suc n) bytes s =
    hash_blocks n (drop 64 bytes)
      (add_words s (rounds round_constants (be_words (take 64 bytes)) s))

abbrev pub words_bytes : Words → Bytes
words_bytes s =
    be_bytes s.a
    ++ (be_bytes s.b
        ++ (be_bytes s.c
            ++ (be_bytes s.d
                ++ (be_bytes s.e ++ (be_bytes s.f ++ (be_bytes s.g ++ be_bytes s.h))))))

unfoldable pub sha256 : Bytes → Bytes
unfolding padded hash_blocks
sha256 message = words_bytes (hash_blocks (blocks_of (length message)) (padded message) initial)
