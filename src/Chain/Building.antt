-- ===== src/Chain/Building.antt =====
-- The builders of src/platform/crypto/transaction.ts. `tx`, which is always null, is left out of what
-- they return; the total of the inputs is the caller's.
use simply_sats.Prelude.{
  ℕ, ◌+◌, ◌-◌, List, [], ◌∷◌, ◌++◌, map, length, sum_by, Result, ok, err, ◌>>=◌, ltb, leb, ◌==◌,
  ◌&&◌, Bool, true, if◌then◌else◌,
}
use simply_sats.Hex.{HexText}
use simply_sats.Fees.{FeeRate, TxError, calculate_tx_fee}
use simply_sats.Builder.{RecipientOutput}
use simply_sats.Chain.{
  Bytes, ChainError, need_two_utxos, no_outputs, nothing_left, fee_error, insufficient_funds,
  Crypto,
}
use simply_sats.Chain.Bytes.{bytes_to_hex}
use simply_sats.Chain.Keys.{wif_to_private_key, private_key_to_address}
use simply_sats.Chain.Scripts.{address_to_locking_script}
use simply_sats.Chain.Serialize.{TxOutput, compute_txid}
use simply_sats.Chain.Signing.{TxUtxo, Keys, signed_transaction}

pub record KeyedUtxo : Type 0 where
  pub utxo : TxUtxo
  pub wif : ℕ

pub record TxOutpoint : Type 0 where
  pub txid : HexText
  pub vout : ℕ

pub record BuiltTx : Type 0 where
  pub raw_tx : HexText
  pub txid : HexText
  pub fee : ℕ
  pub change : ℕ
  pub change_address : ℕ
  pub num_outputs : ℕ
  pub spent_outpoints : List TxOutpoint

pub record BuiltConsolidation : Type 0 where
  pub raw_tx : HexText
  pub txid : HexText
  pub fee : ℕ
  pub output_sats : ℕ
  pub address : ℕ
  pub spent_outpoints : List TxOutpoint

abbrev pub outpoint_of : TxUtxo → TxOutpoint
outpoint_of u = record { txid = u.txid; vout = u.vout }

abbrev pub wrap : {A : Type 0} → Result A TxError → Result A ChainError
wrap (ok a) = ok a
wrap (err e) = err (fee_error e)

abbrev pub fee_of : ℕ → ℕ → FeeRate → Result ℕ ChainError
fee_of inputs outputs rate = wrap (calculate_tx_fee inputs outputs rate 0)

-- `prelimChange > 100`
abbrev pub will_have_change : ℕ → ℕ → Bool
will_have_change total_input satoshis = ltb 100 (total_input - satoshis)

abbrev pub planned_outputs : ℕ → ℕ → ℕ
planned_outputs total_input satoshis = if will_have_change total_input satoshis then 2 else 1

-- The change after a fee, which throws where the inputs fall short.
abbrev pub change_after : ℕ → ℕ → ℕ → Result ℕ ChainError
change_after total_input satoshis fee =
    if ltb total_input (satoshis + fee)
    then err (insufficient_funds (satoshis + fee) total_input)
    else ok (total_input - satoshis - fee)

-- What a fee leaves, which throws where it leaves nothing.
abbrev pub left_after : ℕ → ℕ → Result ℕ ChainError
left_after total_input fee =
    if leb total_input fee then err nothing_left else ok (total_input - fee)

module _ (crypto : Crypto) where
  abbrev pub keys_from : Bytes → Result Keys ChainError
  keys_from priv_key = do
    pub_key ← crypto.get_public_key priv_key
    ok (record { priv_key = priv_key; pub_key = pub_key })

  abbrev pub keys_of_wif : ℕ → Result Keys ChainError
  keys_of_wif wif = wif_to_private_key crypto wif >>= keys_from

  abbrev pub output_to : ℕ → ℕ → Result TxOutput ChainError
  output_to address satoshis = do
    script ← address_to_locking_script crypto address
    ok (record { satoshis = satoshis; script = script })

  -- The output for the change, if there is one.
  abbrev pub change_outputs : Bool → ℕ → ℕ → Result (List TxOutput) ChainError
  change_outputs wanted address change =
      if wanted && ltb 0 change then (output_to address change >>= λ o. ok (o ∷ [])) else ok []

  -- What both single-recipient builders return, once they have the address for the change.
  unfoldable pub pay_one :
      {A : Type 0}
      → (A → TxUtxo)
      → (A → Result Keys ChainError)
      → ℕ
      → RecipientOutput
      → List A
      → ℕ
      → FeeRate
      → Result BuiltTx ChainError
  unfolding signed_transaction address_to_locking_script compute_txid
  pay_one coin keys_of change_address to utxos total_input rate =
      let wanted = will_have_change total_input to.satoshis in
      let num_outputs = planned_outputs total_input to.satoshis in
      do
        fee ← fee_of (length utxos) num_outputs rate
        change ← change_after total_input to.satoshis fee
        payment ← output_to to.address to.satoshis
        rest ← change_outputs wanted change_address change
        raw ← signed_transaction crypto coin keys_of utxos (payment ∷ rest)
        ok (record {
          raw_tx = bytes_to_hex raw;
          txid = compute_txid crypto raw;
          fee = fee;
          change = if wanted then change else 0;
          change_address = change_address;
          num_outputs = num_outputs;
          spent_outpoints = map (λ x. outpoint_of (coin x)) utxos;
        })

  unfoldable pub build_p2pkh_tx :
      ℕ → RecipientOutput → List TxUtxo → ℕ → FeeRate → Result BuiltTx ChainError
  unfolding wif_to_private_key private_key_to_address pay_one
  build_p2pkh_tx wif to utxos total_input rate = do
    priv_key ← wif_to_private_key crypto wif
    keys ← keys_from priv_key
    change_address ← private_key_to_address crypto priv_key
    pay_one (λ u. u) (λ u. ok keys) change_address to utxos total_input rate

  unfoldable pub build_multi_key_p2pkh_tx :
      ℕ → RecipientOutput → List KeyedUtxo → ℕ → FeeRate → Result BuiltTx ChainError
  unfolding wif_to_private_key private_key_to_address pay_one
  build_multi_key_p2pkh_tx change_wif to utxos total_input rate = do
    change_priv_key ← wif_to_private_key crypto change_wif
    change_address ← private_key_to_address crypto change_priv_key
    pay_one (λ u. u.utxo) (λ u. keys_of_wif u.wif) change_address to utxos total_input rate

  unfoldable pub build_consolidation_tx :
      ℕ → List TxUtxo → FeeRate → Result BuiltConsolidation ChainError
  unfolding wif_to_private_key private_key_to_address signed_transaction address_to_locking_script
      compute_txid
  build_consolidation_tx wif utxos rate =
      let total_input = sum_by (λ u. u.satoshis) utxos in
      if ltb (length utxos) 2 then err need_two_utxos else do
        priv_key ← wif_to_private_key crypto wif
        keys ← keys_from priv_key
        address ← private_key_to_address crypto priv_key
        fee ← fee_of (length utxos) 1 rate
        output_sats ← left_after total_input fee
        output ← output_to address output_sats
        raw ← signed_transaction crypto (λ u. u) (λ u. ok keys) utxos (output ∷ [])
        ok (record {
          raw_tx = bytes_to_hex raw;
          txid = compute_txid crypto raw;
          fee = fee;
          output_sats = output_sats;
          address = address;
          spent_outpoints = map outpoint_of utxos;
        })

  abbrev pub outputs_to : List RecipientOutput → Result (List TxOutput) ChainError
  outputs_to [] = ok []
  outputs_to (o ∷ os) = do
    output ← output_to o.address o.satoshis
    rest ← outputs_to os
    ok (output ∷ rest)

  -- The part of `buildMultiOutputP2PKHTx` behind the keys.
  unfoldable pub pay_many :
      Keys → ℕ → List RecipientOutput → List TxUtxo → ℕ → FeeRate → Result (BuiltTx × ℕ) ChainError
  unfolding signed_transaction address_to_locking_script compute_txid
  pay_many keys change_address outputs utxos total_input rate =
      let total_sent = sum_by (λ o. o.satoshis) outputs in
      do
        fee ← fee_of (length utxos) (length outputs + 1) rate
        change ← change_after total_input total_sent fee
        payments ← outputs_to outputs
        rest ← change_outputs true change_address change
        raw ← signed_transaction crypto (λ u. u) (λ u. ok keys) utxos (payments ++ rest)
        ok (
          record {
            raw_tx = bytes_to_hex raw;
            txid = compute_txid crypto raw;
            fee = fee;
            change = change;
            change_address = change_address;
            num_outputs = if ltb 0 change then length outputs + 1 else length outputs;
            spent_outpoints = map outpoint_of utxos;
          },
          total_sent,
        )

  unfoldable pub build_multi_output_p2pkh_tx :
      ℕ → List RecipientOutput → List TxUtxo → ℕ → FeeRate → Result (BuiltTx × ℕ) ChainError
  unfolding wif_to_private_key private_key_to_address pay_many
  build_multi_output_p2pkh_tx wif outputs utxos total_input rate =
      if length outputs == 0 then err no_outputs else do
        priv_key ← wif_to_private_key crypto wif
        keys ← keys_from priv_key
        change_address ← private_key_to_address crypto priv_key
        pay_many keys change_address outputs utxos total_input rate
