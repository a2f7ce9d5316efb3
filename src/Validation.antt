-- ===== src/Validation.antt =====
-- Addresses accepted by the wallet (`isValidBSVAddress` of src/domain/wallet/validation.ts).
pub mod Sha256
pub mod Accepted
use simply_sats.Prelude.{
  ℕ, zero, suc, ◌-◌, Bool, true, false, not, ◌&&◌, ◌||◌, List, [], ◌∷◌, length, take, drop, any,
  is_some, Result, ok, err, ◌==◌, ltb, if◌then◌else◌,
}
use simply_sats.Chain.{Bytes}
use simply_sats.Base58.{Text, Base58Error, base58_chars, index_of, base58_decode}
use simply_sats.Validation.Sha256.{sha256}

unfoldable pub sha256d : Bytes → Bytes
unfolding sha256
sha256d message = sha256 (sha256 message)

abbrev pub starts_with_char : ℕ → Text → Bool
starts_with_char c [] = false
starts_with_char c (d ∷ ds) = d == c

-- `BASE58_REGEX`, but for the empty text.
unfoldable pub is_base58 : Text → Bool
unfolding index_of
is_base58 [] = true
is_base58 (c ∷ cs) = is_some (index_of c base58_chars) && is_base58 cs

-- Whether the first `n` bytes are there and agree.
abbrev pub agree : ℕ → Bytes → Bytes → Bool
agree zero hash check = true
agree (suc n) (h ∷ hash) (c ∷ check) = h == c && agree n hash check
agree (suc n) hash check = false

-- The payload of decoded bytes, and its checksum behind it.
abbrev pub payload : Bytes → Bytes
payload decoded = take (length decoded - 4) decoded

abbrev pub checksum : Bytes → Bytes
checksum decoded = drop (length decoded - 4) decoded

unfoldable pub checks_out : Result Bytes Base58Error → Bool
unfolding sha256d
checks_out (err e) = false
checks_out (ok decoded) =
    (not (ltb (length decoded) 5) && agree 4 (sha256d (payload decoded)) (checksum decoded))
    && (starts_with_char 0 (payload decoded) || starts_with_char 5 (payload decoded))

unfoldable pub is_valid_bsv_address : Text → Bool
unfolding is_base58 base58_decode checks_out
is_valid_bsv_address address =
    (not (ltb (length address) 26 || ltb 35 (length address))
      && (starts_with_char 49 address || starts_with_char 51 address)
      && is_base58 address)
    && checks_out (base58_decode address true)
