-- ===== src/Chain/Paying.antt =====
-- What the bytes of a signed transaction pay, and to whom.
use simply_sats.Prelude.{
  ℕ, suc, ◌+◌, ◌*◌, ◌/◌, ◌%◌, ◌^◌, ◌<◌, ◌≤◌, ◌≡◌, refl, sym, ap, ◌∙◌, subst, some, List, [], ◌∷◌,
  ◌++◌, map, length, length-append, drop, length-take_le, sum_by, All, Result, ok, ◌>>=◌, bind_ok,
  ok-injective, arith, Bool, true, false, ltb, if◌then◌else◌,
}
use simply_sats.Hex.{HexText}
use simply_sats.Builder.{RecipientOutput}
use simply_sats.Chain.{Bytes, ChainError, Crypto}
use simply_sats.Chain.Bytes.{hex_to_bytes, bytes_to_hex, slice}
use simply_sats.Chain.Scripts.{address_to_locking_script, p2pkh_locking_script}
use simply_sats.Chain.Serialize.{TxInput, TxOutput, serialize_outputs}
use simply_sats.Chain.Signing.{TxUtxo, Keys, to_sighash, sign_inputs, signed_transaction}
use simply_sats.Chain.Building.{TxOutpoint, outpoint_of, output_to, outputs_to, change_outputs}
use simply_sats.Chain.Signed.{IsSpendable, spent_by, sign_inputs-IsInput, length-sign_inputs}
use simply_sats.Chain.Reading.{read_transaction}
use simply_sats.Chain.Reading.Transactions.{IsOutput, read_transaction-serialize}

digits : (b : ℕ) → b / 16 * 16 + b % 16 ≡ b
digits b = omega arith

hex_to_bytes-bytes_to_hex : (bs : Bytes) → hex_to_bytes (bytes_to_hex bs) ≡ bs
hex_to_bytes-bytes_to_hex [] = refl
hex_to_bytes-bytes_to_hex (b ∷ bs) = rw (hex_to_bytes-bytes_to_hex bs, digits b) refl

length-p2pkh_locking_script : (h : Bytes) → length (p2pkh_locking_script h) ≡ 5 + length h
length-p2pkh_locking_script h = omega (arith, length-append h (0x88 ∷ 0xac ∷ []))

-- The recipient that stands for the change.
abbrev pub change_recipients : ℕ → ℕ → List RecipientOutput
change_recipients address change =
    if ltb 0 change then record { address = address; satoshis = change } ∷ [] else []

abbrev pub sum_paid : List RecipientOutput → ℕ
sum_paid = sum_by (λ o. o.satoshis)

pub sum_paid-change : (address change : ℕ) → sum_paid (change_recipients address change) ≡ change
sum_paid-change address change = ground arith

pub length-change_recipients_le :
    (address change : ℕ) → length (change_recipients address change) ≤ 1
length-change_recipients_le address change = ground arith

module _ (crypto : Crypto) where
  -- The transaction that a reader finds in the text spends these coins in this order, and pays these
  -- recipients in this order and nobody else.
  abbrev pub Pays : HexText → List TxOutpoint → List RecipientOutput → Type 0
  Pays raw spent recipients =
      (inputs : List TxInput) × (outputs : List TxOutput) × (read_transaction (hex_to_bytes raw)
        ≡ some (inputs, outputs))
      × (map spent_by inputs ≡ spent)
      × (outputs_to crypto recipients ≡ ok outputs)

  output_to-IsOutput :
      (address satoshis : ℕ) (o : TxOutput)
      → satoshis < 2 ^ 64
      → output_to crypto address satoshis ≡ ok o
      → IsOutput o
  unfolding address_to_locking_script
  output_to-IsOutput address satoshis o h e =
      let (script, f, g) = bind_ok (address_to_locking_script crypto address) _ e in
      let (decoded, p, q) = bind_ok (crypto.decode address) _ f in
      subst IsOutput (ok-injective g) (
        h,
        omega (
          arith,
          ap length (ok-injective q),
          length-p2pkh_locking_script (slice 1 21 decoded),
          length-take_le 20 (drop 1 decoded),
        ),
      )

  outputs_to-IsOutput :
      (recipients : List RecipientOutput) (outputs : List TxOutput)
      → sum_paid recipients < 2 ^ 64
      → outputs_to crypto recipients ≡ ok outputs
      → All IsOutput outputs × (length outputs ≡ length recipients)
  outputs_to-IsOutput [] outputs h e =
      subst (λ os. All IsOutput os × (length os ≡ 0)) (ok-injective e) (tt, refl)
  outputs_to-IsOutput (r ∷ rs) outputs h e =
      let (o, f, e1) = bind_ok (output_to crypto r.address r.satoshis) _ e in
      let (os, g, e2) = bind_ok (outputs_to crypto rs) _ e1 in
      let more = outputs_to-IsOutput rs os (omega arith) g in
      subst (λ os. All IsOutput os × (length os ≡ suc (length rs))) (ok-injective e2)
        ((output_to-IsOutput r.address r.satoshis o (omega arith) f, more.0), ap suc more.1)

  pub outputs_to-append :
      (rs qs : List RecipientOutput) (os ps : List TxOutput)
      → outputs_to crypto rs ≡ ok os
      → outputs_to crypto qs ≡ ok ps
      → outputs_to crypto (rs ++ qs) ≡ ok (os ++ ps)
  outputs_to-append [] qs os ps e f = f ∙ ap (λ x. ok (x ++ ps)) (ok-injective e)
  outputs_to-append (r ∷ rs) qs os ps e f =
      let (o, g, e1) = bind_ok (output_to crypto r.address r.satoshis) _ e in
      let (more, p, e2) = bind_ok (outputs_to crypto rs) _ e1 in
      rw (g, outputs_to-append rs qs more ps p f) (ap (λ x. ok (x ++ ps)) (ok-injective e2))

  pub outputs_to-cons :
      (r : RecipientOutput) (rs : List RecipientOutput) (o : TxOutput) (os : List TxOutput)
      → output_to crypto r.address r.satoshis ≡ ok o
      → outputs_to crypto rs ≡ ok os
      → outputs_to crypto (r ∷ rs) ≡ ok (o ∷ os)
  outputs_to-cons r rs o os e f = rw (e, f) refl

  paid_if :
      (b : Bool) (address change : ℕ) (rest : List TxOutput)
      → (if b then (output_to crypto address change >>= λ o. ok (o ∷ [])) else ok []) ≡ ok rest
      → outputs_to crypto (if b then record { address = address; satoshis = change } ∷ [] else [])
        ≡ ok rest
  paid_if true address change rest e = e
  paid_if false address change rest e = e

  pub change_outputs-outputs_to :
      (wanted : Bool) (address change : ℕ) (rest : List TxOutput)
      → change_outputs crypto wanted address change ≡ ok rest
      → outputs_to crypto (change_recipients address (if wanted then change else 0)) ≡ ok rest
  change_outputs-outputs_to false address change rest e = e
  change_outputs-outputs_to true address change rest e =
      paid_if (ltb 0 change) address change rest e

  -- A transaction signed over the outputs to some recipients pays them.
  pub signed_transaction-Pays :
      {A : Type 0} (coin : A → TxUtxo) (keys_of : A → Result Keys ChainError) (utxos : List A)
      (recipients : List RecipientOutput) (outputs : List TxOutput) (raw : Bytes)
      → ((x : A) (keys : Keys) → keys_of x ≡ ok keys → length keys.pub_key ≡ 33)
      → All (λ x. IsSpendable (coin x)) utxos
      → length utxos < 2 ^ 32
      → length recipients < 2 ^ 32
      → sum_paid recipients < 2 ^ 64
      → outputs_to crypto recipients ≡ ok outputs
      → signed_transaction crypto coin keys_of utxos outputs ≡ ok raw
      → Pays (bytes_to_hex raw) (map (λ x. outpoint_of (coin x)) utxos) recipients
  unfolding signed_transaction
  signed_transaction-Pays coin keys_of utxos recipients outputs raw k h n m s o e =
      let all = map (λ x. to_sighash (coin x)) utxos in
      let (bytes, f, e1) = bind_ok (serialize_outputs outputs) _ e in
      let (inputs, g, e2) = bind_ok (sign_inputs crypto coin keys_of all bytes 0 utxos) _ e1 in
      let shape = sign_inputs-IsInput crypto coin keys_of all bytes 0 utxos inputs k h g in
      let count = length-sign_inputs crypto coin keys_of all bytes 0 utxos inputs g in
      let outs = outputs_to-IsOutput recipients outputs s o in
      let back =
        read_transaction-serialize inputs outputs shape.0 outs.0 (omega (arith, count))
          (omega (arith, outs.1)) in
      (
        inputs,
        outputs,
        ap read_transaction (hex_to_bytes-bytes_to_hex raw)
            ∙ ok-injective (sym (ap (λ r. r >>= λ raw. ok (read_transaction raw)) e2) ∙ back),
        shape.1,
        o,
      )
