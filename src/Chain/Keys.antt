-- ===== src/Chain/Keys.antt =====
-- Keys and addresses (src/platform/crypto/keys.ts), without the derivation from a mnemonic, which is a
-- library's.
use simply_sats.Prelude.{
  ℕ, zero, suc, ◌-◌, Bool, false, [], ◌∷◌, ◌++◌, length, take, Result, ok, err, ◌>>=◌, ltb, ◌==◌,
  if◌then◌else◌,
}
use simply_sats.Hex.{HexText}
use simply_sats.Chain.{Bytes, ChainError, range_error, bad_wif_version, Crypto}
use simply_sats.Chain.Bytes.{slice, bytes_to_hex, hex_to_bytes}

pub record KeyPair : Type 0 where
  pub wif : ℕ
  pub address : ℕ
  pub pub_key : HexText

abbrev zeros : ℕ → Bytes
zeros zero = []
zeros (suc n) = 0 ∷ zeros n

-- A new array of `suc size` bytes with `bytes` set behind the version byte, which throws when they do
-- not fit.
abbrev pub payload_of : ℕ → ℕ → Bytes → Result Bytes ChainError
payload_of version size bytes =
    if ltb size (length bytes)
    then err range_error
    else ok (version ∷ (bytes ++ zeros (size - length bytes)))

-- `bytes[0]`, where a missing byte is like none.
abbrev first_is : ℕ → Bytes → Bool
first_is b [] = false
first_is b (a ∷ bs) = a == b

module _ (crypto : Crypto) where
  unfoldable pub hash160 : Bytes → Bytes
  hash160 bytes = crypto.ripemd160 (crypto.sha256 bytes)

  unfoldable pub double_sha256 : Bytes → Bytes
  double_sha256 bytes = crypto.sha256 (crypto.sha256 bytes)

  -- The last of the 34 bytes is the compression flag, also over a key that reached it.
  unfoldable pub private_key_to_wif : Bytes → Result ℕ ChainError
  private_key_to_wif key = do
    payload ← payload_of 0x80 33 key
    ok (crypto.encode (take 33 payload ++ (1 ∷ [])))

  unfoldable pub wif_to_private_key : ℕ → Result Bytes ChainError
  wif_to_private_key wif = do
    decoded ← crypto.decode wif
    if first_is 0x80 decoded then ok (slice 1 33 decoded) else err bad_wif_version

  unfoldable pub public_key_to_address : Bytes → Result ℕ ChainError
  unfolding hash160
  public_key_to_address key = do payload ← payload_of 0 20 (hash160 key); ok (crypto.encode payload)

  unfoldable pub private_key_to_address : Bytes → Result ℕ ChainError
  unfolding public_key_to_address
  private_key_to_address key = crypto.get_public_key key >>= public_key_to_address

  unfoldable pub wif_to_address : ℕ → Result ℕ ChainError
  unfolding wif_to_private_key private_key_to_address
  wif_to_address wif = wif_to_private_key wif >>= private_key_to_address

  unfoldable pub keys_from_wif : ℕ → Result KeyPair ChainError
  unfolding wif_to_private_key public_key_to_address
  keys_from_wif wif = do
    priv_key ← wif_to_private_key wif
    key ← crypto.get_public_key priv_key
    address ← public_key_to_address key
    ok (record { wif = wif; address = address; pub_key = bytes_to_hex key })

  unfoldable pub pubkey_to_hash160 : HexText → HexText
  unfolding hash160
  pubkey_to_hash160 hex = bytes_to_hex (hash160 (hex_to_bytes hex))
