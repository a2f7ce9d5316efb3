-- ===== src/Types.antt =====
-- The records of src/domain/types.ts that the transaction code shares. Texts that the code only
-- compares for equality (txids, scripts, addresses, keys) stand as numbers.
use simply_sats.Prelude.{ℕ}

pub record Utxo : Type 0 where
  pub txid : ℕ
  pub vout : ℕ
  pub satoshis : ℕ
  pub script : ℕ

pub record ExtendedUtxo : Type 0 where
  pub utxo : Utxo
  pub open utxo use *
  pub wif : ℕ
  pub address : ℕ

pub record Outpoint : Type 0 where
  pub txid : ℕ
  pub vout : ℕ
