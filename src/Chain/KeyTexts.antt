-- ===== src/Chain/KeyTexts.antt =====
-- Private keys in text form are read back, and lead to the same address.
use simply_sats.Prelude.{◌≡◌, refl, [], ◌∷◌, ◌++◌, length, take-append_at, ok, ◌>>=◌}
use simply_sats.Chain.{Bytes, Crypto}
use simply_sats.Chain.Keys.{
  private_key_to_wif, wif_to_private_key, wif_to_address, private_key_to_address,
}

-- The 34 bytes that the text of a private key encodes.
abbrev pub wif_payload : Bytes → Bytes
wif_payload key = 0x80 ∷ (key ++ (1 ∷ []))

-- What Base58Check coding is documented to do, for these bytes.
abbrev pub DecodesWif : Crypto → Bytes → Type 0
DecodesWif crypto key = crypto.decode (crypto.encode (wif_payload key)) ≡ ok (wif_payload key)

private_key_to_wif_lem :
    (crypto : Crypto) (key : Bytes)
    → length key ≡ 32
    → private_key_to_wif crypto key ≡ ok (crypto.encode (0x80 ∷ (key ++ (1 ∷ []))))
unfolding private_key_to_wif
private_key_to_wif_lem crypto key h = rw (h, take-append_at 32 key (0 ∷ []) h) refl

wif_to_private_key_lem :
    (crypto : Crypto) (key : Bytes)
    → DecodesWif crypto key
    → length key ≡ 32
    → wif_to_private_key crypto (crypto.encode (0x80 ∷ (key ++ (1 ∷ [])))) ≡ ok key
unfolding wif_to_private_key
wif_to_private_key_lem crypto key d h = rw (d, take-append_at 32 key (1 ∷ []) h) refl

-- A private key of 32 bytes is read back from its text, and the text has the address of the key, if the
-- library decodes what it encoded.
pub wif_to_private_key-to_wif :
    (crypto : Crypto) (key : Bytes)
    → DecodesWif crypto key
    → length key ≡ 32
    → ((private_key_to_wif crypto key >>= wif_to_private_key crypto) ≡ ok key)
      × ((private_key_to_wif crypto key >>= wif_to_address crypto)
          ≡ private_key_to_address crypto key)
unfolding wif_to_address
wif_to_private_key-to_wif crypto key d h =
    rw (private_key_to_wif_lem crypto key h, wif_to_private_key_lem crypto key d h) (refl, refl)
