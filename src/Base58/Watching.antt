-- ===== src/Base58/Watching.antt =====
-- The script that the wallet watches for an address is the one that the builders pay.
use simply_sats.Prelude.{
  ℕ, ◌*◌, ◌≡◌, refl, ap, sym, false, [], ◌∷◌, ◌++◌, length, length-append, take, take-all,
  length-take_le, length-take_min, ok, arith,
}
use simply_sats.Hex.{byte_hex}
use simply_sats.Chain.{Bytes, Crypto}
use simply_sats.Chain.Bytes.{bytes_to_hex, slice}
use simply_sats.Chain.Scripts.{p2pkh_locking_script, address_to_locking_script}
use simply_sats.Base58.{Text, base58_decode, p2pkh_locking_script_hex}

pub bytes_to_hex-append :
    (xs ys : Bytes) → bytes_to_hex (xs ++ ys) ≡ bytes_to_hex xs ++ bytes_to_hex ys
bytes_to_hex-append [] ys = refl
bytes_to_hex-append (x ∷ xs) ys = ap (λ h. byte_hex x ++ h) (bytes_to_hex-append xs ys)

length-bytes_to_hex : (bs : Bytes) → length (bytes_to_hex bs) ≡ 2 * length bs
length-bytes_to_hex [] = refl
length-bytes_to_hex (b ∷ bs) = omega (arith, length-bytes_to_hex bs)

-- The hash behind the version byte is not touched by the loss of the checksum.
slice-payload : (bytes : Bytes) → slice 1 21 (take 21 bytes) ≡ slice 1 21 bytes
slice-payload [] = refl
slice-payload (b ∷ bs) = take-all 20 (take 20 bs) (length-take_le 20 bs)

length-slice : (bytes : Bytes) → length bytes ≡ 25 → length (slice 1 21 bytes) ≡ 20
length-slice [] h = absurd (omega (arith, h))
length-slice (b ∷ bs) h = length-take_min 20 bs (omega (arith, h))

-- For an address that decodes to 25 bytes, the watched script is the hex text of the script that the
-- transaction builder pays, if the library decodes the address to these bytes without their checksum; it has
-- 50 digits.
pub script_hex-agrees :
    (crypto : Crypto) (address : Text) (a : ℕ) (bytes : Bytes)
    → base58_decode address false ≡ ok bytes
    → length bytes ≡ 25
    → crypto.decode a ≡ ok (take 21 bytes)
    → (script : Bytes) × (address_to_locking_script crypto a ≡ ok script)
      × (p2pkh_locking_script_hex address ≡ ok (bytes_to_hex script))
      × (length (bytes_to_hex script) ≡ 50)
unfolding address_to_locking_script p2pkh_locking_script_hex
script_hex-agrees crypto address a bytes e h d =
    let hash = slice 1 21 bytes in
    (
      p2pkh_locking_script hash,
      rw (d, slice-payload bytes) refl,
      rw (e, h)
          (ap (λ t. ok (7 ∷ 6 ∷ 10 ∷ 9 ∷ 1 ∷ 4 ∷ t))
            (sym (bytes_to_hex-append hash (0x88 ∷ 0xac ∷ [])))),
      omega (
        arith,
        length-bytes_to_hex (hash ++ (0x88 ∷ 0xac ∷ [])),
        length-append hash (0x88 ∷ 0xac ∷ []),
        length-slice bytes h,
      ),
    )
