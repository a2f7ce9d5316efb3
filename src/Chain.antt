-- ===== src/Chain.antt =====
-- Chain: the transactions that are built and signed in TypeScript (src/platform/crypto/transaction.ts)
-- and their keys (src/platform/crypto/keys.ts). Bytes stand as numbers below 256. The hashes, the
-- elliptic curve and the Base58Check coding are those of @noble and @scure, and are parameters.
pub mod Bytes
pub mod Keys
pub mod Scripts
pub mod Serialize
pub mod Signing
pub mod Building
pub mod Signed
pub mod Paying
pub mod Balances
pub mod Batches
pub mod Der
pub mod KeyTexts
pub mod Reading
use simply_sats.Prelude.{ℕ, Result, List}
use simply_sats.Fees.{TxError}

-- What the code and the libraries throw.
pub data ChainError : Type 0 where
  varint_too_large range_error bad_base58 bad_wif_version bad_key no_such_input : ChainError
  need_two_utxos no_outputs nothing_left : ChainError
  fee_error : TxError → ChainError
  -- What is needed, and what is there.
  insufficient_funds : ℕ → ℕ → ChainError

abbrev pub Bytes : Type 0
Bytes = List ℕ

-- The operations of the libraries. Addresses and private keys in text form stand as numbers.
pub record Crypto : Type 0 where
  pub sha256 : Bytes → Bytes
  pub ripemd160 : Bytes → Bytes
  pub get_public_key : Bytes → Result Bytes ChainError
  -- The hash, the private key; 64 bytes.
  pub sign : Bytes → Bytes → Result Bytes ChainError
  pub encode : Bytes → ℕ
  pub decode : ℕ → Result Bytes ChainError
