-- ===== src/Tests/Hashing.antt =====
-- The hash and the check of addresses at known inputs.
use simply_sats.Prelude.{
  ◌≡◌, ◌≤◌, ◌||◌, refl, take, length, [], ◌∷◌, true, false, ok, err, ltb, if◌then◌else◌,
}
use simply_sats.Chain.{Bytes}
use simply_sats.Chain.Bytes.{bytes_to_hex, slice}
use simply_sats.Chain.Scripts.{p2pkh_locking_script}
use simply_sats.Base58.{
  Text, too_short, base58_decode, decode_onto, index_of, times_58, p2pkh_locking_script_hex,
}
use simply_sats.Validation.{
  sha256d, is_base58, checks_out, is_valid_bsv_address, payload, checksum, starts_with_char,
}
use simply_sats.Validation.Sha256.{sha256, padded, hash_blocks, rounds, next_word, round_step}
use simply_sats.Validation.Accepted.{is_valid_bsv_address-accepted}

-- The first four bytes of the hash of "abc" are ba7816bf.
sha256-abc : take 4 (sha256 (97 ∷ 98 ∷ 99 ∷ [])) ≡ 0xba ∷ 0x78 ∷ 0x16 ∷ 0xbf ∷ []
unfolding sha256 padded hash_blocks rounds next_word round_step
sha256-abc = refl

-- "1A1zP1eP5QGefi2DMPTfTL5SLmv7DivfNa", and with a wrong last character.
abbrev genesis : Text
genesis =
    49 ∷ 65 ∷ 49 ∷ 122 ∷ 80 ∷ 49 ∷ 101 ∷ 80 ∷ 53 ∷ 81 ∷ 71 ∷ 101 ∷ 102 ∷ 105 ∷ 50 ∷ 68 ∷ 77 ∷ 80
    ∷ 84 ∷ 102 ∷ 84 ∷ 76 ∷ 53 ∷ 83 ∷ 76 ∷ 109 ∷ 118 ∷ 55 ∷ 68 ∷ 105 ∷ 118 ∷ 102 ∷ 78 ∷ 97 ∷ []

abbrev mistyped : Text
mistyped =
    49 ∷ 65 ∷ 49 ∷ 122 ∷ 80 ∷ 49 ∷ 101 ∷ 80 ∷ 53 ∷ 81 ∷ 71 ∷ 101 ∷ 102 ∷ 105 ∷ 50 ∷ 68 ∷ 77 ∷ 80
    ∷ 84 ∷ 102 ∷ 84 ∷ 76 ∷ 53 ∷ 83 ∷ 76 ∷ 109 ∷ 118 ∷ 55 ∷ 68 ∷ 105 ∷ 118 ∷ 102 ∷ 78 ∷ 98 ∷ []

-- An address of a script hash, "3J98t1WpEZ73CNmQviecrnyiWrnqRhWNLy".
abbrev script_address : Text
script_address =
    51 ∷ 74 ∷ 57 ∷ 56 ∷ 116 ∷ 49 ∷ 87 ∷ 112 ∷ 69 ∷ 90 ∷ 55 ∷ 51 ∷ 67 ∷ 78 ∷ 109 ∷ 81 ∷ 118 ∷ 105
    ∷ 101 ∷ 99 ∷ 114 ∷ 110 ∷ 121 ∷ 105 ∷ 87 ∷ 114 ∷ 110 ∷ 113 ∷ 82 ∷ 104 ∷ 87 ∷ 78 ∷ 76 ∷ 121 ∷ []

valid-genesis : is_valid_bsv_address genesis ≡ true
unfolding is_valid_bsv_address is_base58 base58_decode decode_onto index_of times_58 checks_out
    sha256d sha256 padded hash_blocks rounds next_word round_step
valid-genesis = refl

valid-mistyped : is_valid_bsv_address mistyped ≡ false
unfolding is_valid_bsv_address is_base58 base58_decode decode_onto index_of times_58 checks_out
    sha256d sha256 padded hash_blocks rounds next_word round_step
valid-mistyped = refl

valid-script_address : is_valid_bsv_address script_address ≡ true
unfolding is_valid_bsv_address is_base58 base58_decode decode_onto index_of times_58 checks_out
    sha256d sha256 padded hash_blocks rounds next_word round_step
valid-script_address = refl

is_valid_bsv_address-accepted_example :
    (bytes : Bytes) × (base58_decode script_address true ≡ ok bytes)
    × (base58_decode script_address false ≡ ok bytes)
    × (5 ≤ length bytes)
    × (take 4 (sha256d (payload bytes)) ≡ take 4 (checksum bytes))
    × ((starts_with_char 0 (payload bytes) || starts_with_char 5 (payload bytes)) ≡ true)
    × (p2pkh_locking_script_hex script_address ≡ (
        if ltb (length bytes) 25
        then err (too_short (length bytes))
        else ok (bytes_to_hex (p2pkh_locking_script (slice 1 21 bytes)))))
is_valid_bsv_address-accepted_example =
    is_valid_bsv_address-accepted script_address valid-script_address
