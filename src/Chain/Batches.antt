-- ===== src/Chain/Batches.antt =====
-- What the transactions with many recipients and the consolidations pay.
use simply_sats.Prelude.{
  ℕ, ◌+◌, ◌^◌, ◌<◌, ◌≤◌, ◌≡◌, refl, sym, ap, ◌∙◌, subst, List, [], ◌∷◌, ◌++◌, map, length,
  length-append, sum_by, sum_by-append, All, Result, ok, err, bind_ok, ok-injective, arith, Bool,
  true, false, ltb, ◌==◌, if◌then◌else◌, Bool-cases, inl, inr,
}
use simply_sats.Fees.{FeeRate}
use simply_sats.Builder.{RecipientOutput}
use simply_sats.Chain.{Bytes, ChainError, Crypto, no_outputs, need_two_utxos}
use simply_sats.Chain.Bytes.{bytes_to_hex}
use simply_sats.Chain.Keys.{wif_to_private_key, private_key_to_address}
use simply_sats.Chain.Serialize.{TxOutput}
use simply_sats.Chain.Signing.{TxUtxo, Keys, signed_transaction}
use simply_sats.Chain.Building.{
  BuiltTx, BuiltConsolidation, outpoint_of, fee_of, change_after, left_after, keys_from, output_to,
  change_outputs, outputs_to, pay_many, build_consolidation_tx, build_multi_output_p2pkh_tx,
}
use simply_sats.Chain.Signed.{IsSpendable, HasCompressedKeys}
use simply_sats.Chain.Paying.{
  Pays, sum_paid, sum_paid-change, length-change_recipients_le, outputs_to-cons, change_recipients,
  outputs_to-append, change_outputs-outputs_to, signed_transaction-Pays,
}
use simply_sats.Chain.Balances.{change_after-balance, keys_from-compressed}

-- A guard that throws was not taken.
unguarded {ℓ} :
    {A : Type ℓ} (b : Bool) (x : ChainError) (m : Result A ChainError) {a : A}
    → (if b then err x else m) ≡ ok a
    → (b ≡ false) × (m ≡ ok a)
unguarded true x m e = absurd (ground (arith, e))
unguarded false x m e = (refl, e)

count_outputs :
    (outputs : List RecipientOutput) (address change : ℕ)
    → (if ltb 0 change then length outputs + 1 else length outputs)
      ≡ length (outputs ++ change_recipients address change)
count_outputs outputs address change = elim (Bool-cases (ltb 0 change)) [
  | inl e ↦
      rw e (
        omega (arith, length-append outputs (record { address = address; satoshis = change } ∷ [])))
  | inr e ↦ rw e (omega (arith, length-append {A = RecipientOutput} outputs []))
]

left_after-balance :
    (total fee left : ℕ) → left_after total fee ≡ ok left → (fee + left ≡ total) × (0 < left)
left_after-balance total fee left e = ground arith

module _ (crypto : Crypto) (compressed : HasCompressedKeys crypto) where
  -- A consolidation of a wallet's coins spends them all and pays one output, to the address of the key:
  -- what the fee leaves of them, and that is something; with public keys of 33 bytes, txids of 32 and
  -- indices of 4, fewer than 2 ^ 32 coins, and a sum below 2 ^ 53.
  pub build_consolidation_tx-Pays :
      (wif : ℕ) (utxos : List TxUtxo) (rate : FeeRate) (r : BuiltConsolidation)
      → All IsSpendable utxos
      → length utxos < 2 ^ 32
      → sum_by (λ u. u.satoshis) utxos < 2 ^ 53
      → build_consolidation_tx crypto wif utxos rate ≡ ok r
      → Pays crypto r.raw_tx
          (map outpoint_of utxos)
          (record { address = r.address; satoshis = r.output_sats } ∷ [])
        × (2 ≤ length utxos)
        × (r.fee + r.output_sats ≡ sum_by (λ u. u.satoshis) utxos)
        × (0 < r.output_sats)
  unfolding build_consolidation_tx
  build_consolidation_tx-Pays wif utxos rate r h n t e =
      let total = sum_by (λ u. u.satoshis) utxos in
      let guard = unguarded (ltb (length utxos) 2) need_two_utxos _ e in
      let (priv_key, f, e1) = bind_ok (wif_to_private_key crypto wif) _ guard.1 in
      let (keys, g, e2) = bind_ok (keys_from crypto priv_key) _ e1 in
      let (address, p, e3) = bind_ok (private_key_to_address crypto priv_key) _ e2 in
      let (fee, q, e4) = bind_ok (fee_of (length utxos) 1 rate) _ e3 in
      let (left, s, e5) = bind_ok (left_after total fee) _ e4 in
      let (output, o, e6) = bind_ok (output_to crypto address left) _ e5 in
      let (raw, w, e7) =
        bind_ok (signed_transaction crypto (λ u. u) (λ u. ok keys) utxos (output ∷ [])) _ e6 in
      let balance = left_after-balance total fee left s in
      let to : RecipientOutput = record { address = address; satoshis = left } in
      subst
        (λ r.
          Pays crypto r.raw_tx (map outpoint_of utxos)
            (record { address = r.address; satoshis = r.output_sats } ∷ [])
          × (2 ≤ length utxos)
          × (r.fee + r.output_sats ≡ total)
          × (0 < r.output_sats))
        (ok-injective e7)
        (
          signed_transaction-Pays crypto (λ u. u) (λ u. ok keys) utxos (to ∷ []) (output ∷ []) raw
              (λ x k q.
                ap (λ k. length k.pub_key) (sym (ok-injective q))
                ∙ keys_from-compressed crypto compressed priv_key keys g)
              h n (omega arith) (omega (arith, balance.0))
              (outputs_to-cons crypto to [] output [] o refl) w,
          ground (arith, guard.0),
          balance.0,
          balance.1,
        )

  batch-Pays :
      (keys : Keys) (outputs : List RecipientOutput) (utxos : List TxUtxo)
      (total fee change address : ℕ) (payments rest : List TxOutput) (raw : Bytes)
      → length keys.pub_key ≡ 33
      → All IsSpendable utxos
      → length utxos < 2 ^ 32
      → length outputs < 2 ^ 31
      → total < 2 ^ 53
      → change_after total (sum_paid outputs) fee ≡ ok change
      → outputs_to crypto outputs ≡ ok payments
      → change_outputs crypto true address change ≡ ok rest
      → signed_transaction crypto (λ u. u) (λ u. ok keys) utxos (payments ++ rest) ≡ ok raw
      → Pays crypto
          (bytes_to_hex raw)
          (map outpoint_of utxos)
          (outputs ++ change_recipients address change)
        × (sum_paid outputs + fee + change ≡ total)
        × ((if ltb 0 change then length outputs + 1 else length outputs)
            ≡ length (outputs ++ change_recipients address change))
  batch-Pays keys outputs utxos total fee change address payments rest raw k h n l t s o w x =
      let balance = change_after-balance total (sum_paid outputs) fee change s in
      let more = change_recipients address change in
      (
        signed_transaction-Pays crypto (λ u. u) (λ u. ok keys) utxos (outputs ++ more)
            (payments ++ rest) raw (λ x k' q. ap (λ k. length k.pub_key) (sym (ok-injective q)) ∙ k)
            h n
            (omega (arith, length-append outputs more, length-change_recipients_le address change))
            (omega (
              arith,
              balance,
              sum_by-append (λ o. o.satoshis) outputs more,
              sum_paid-change address change,
            ))
            (outputs_to-append crypto outputs more payments rest o
              (change_outputs-outputs_to crypto true address change rest w))
            x,
        balance,
        count_outputs outputs address change,
      )

  pay_many-Pays :
      (keys : Keys) (address : ℕ) (outputs : List RecipientOutput) (utxos : List TxUtxo) (total : ℕ)
      (rate : FeeRate) (b : BuiltTx × ℕ)
      → length keys.pub_key ≡ 33
      → All IsSpendable utxos
      → length utxos < 2 ^ 32
      → length outputs < 2 ^ 31
      → total < 2 ^ 53
      → pay_many crypto keys address outputs utxos total rate ≡ ok b
      → Pays crypto b.0.raw_tx
          (map outpoint_of utxos)
          (outputs ++ change_recipients b.0.change_address b.0.change)
        × (sum_paid outputs + b.0.fee + b.0.change ≡ total)
        × (b.0.num_outputs ≡ length (outputs ++ change_recipients b.0.change_address b.0.change))
  unfolding pay_many
  pay_many-Pays keys address outputs utxos total rate b k h n l t e =
      let (fee, q, e4) = bind_ok (fee_of (length utxos) (length outputs + 1) rate) _ e in
      let (change, s, e5) = bind_ok (change_after total (sum_paid outputs) fee) _ e4 in
      let (payments, o, e6) = bind_ok (outputs_to crypto outputs) _ e5 in
      let (rest, w, e7) = bind_ok (change_outputs crypto true address change) _ e6 in
      let (raw, x, e8) =
        bind_ok (signed_transaction crypto (λ u. u) (λ u. ok keys) utxos (payments ++ rest)) _ e7 in
      subst
        (λ b.
          Pays crypto b.0.raw_tx (map outpoint_of utxos)
            (outputs ++ change_recipients b.0.change_address b.0.change)
          × (sum_paid outputs + b.0.fee + b.0.change ≡ total)
          × (b.0.num_outputs ≡ length (outputs ++ change_recipients b.0.change_address b.0.change)))
        (ok-injective e8)
        (batch-Pays keys outputs utxos total fee change address payments rest raw k h n l t s o w x)

  -- A payment to many recipients, built and signed with one key, spends the given coins in their order and
  -- pays each recipient in their order, then the change if there is any; amounts, fee and change add up to the
  -- total, and the number of outputs is told; with public keys of 33 bytes, txids of 32 and indices of 4, fewer
  -- than 2 ^ 32 coins and 2 ^ 31 recipients, and a total below 2 ^ 53.
  pub build_multi_output_p2pkh_tx-Pays :
      (wif : ℕ) (outputs : List RecipientOutput) (utxos : List TxUtxo) (total : ℕ) (rate : FeeRate)
      (r : BuiltTx) (sent : ℕ)
      → All IsSpendable utxos
      → length utxos < 2 ^ 32
      → length outputs < 2 ^ 31
      → total < 2 ^ 53
      → build_multi_output_p2pkh_tx crypto wif outputs utxos total rate ≡ ok (r, sent)
      → Pays crypto r.raw_tx
          (map outpoint_of utxos)
          (outputs ++ change_recipients r.change_address r.change)
        × (sum_paid outputs + r.fee + r.change ≡ total)
        × (r.num_outputs ≡ length (outputs ++ change_recipients r.change_address r.change))
  unfolding build_multi_output_p2pkh_tx
  build_multi_output_p2pkh_tx-Pays wif outputs utxos total rate r sent h n l t e =
      let guard = unguarded (length outputs == 0) no_outputs _ e in
      let (priv_key, f, e1) = bind_ok (wif_to_private_key crypto wif) _ guard.1 in
      let (keys, g, e2) = bind_ok (keys_from crypto priv_key) _ e1 in
      let (address, p, e3) = bind_ok (private_key_to_address crypto priv_key) _ e2 in
      pay_many-Pays keys address outputs utxos total rate (r, sent)
        (keys_from-compressed crypto compressed priv_key keys g) h n l t e3
