-- ===== src/Chain/Balances.antt =====
-- What the transactions of the builders pay, and where the satoshis go.
use simply_sats.Prelude.{
  ℕ, ◌+◌, ◌-◌, ◌^◌, ◌<◌, ◌≤◌, ◌≡◌, refl, sym, ap, ◌∙◌, subst, List, ◌∷◌, map, length, All, Result,
  ok, bind_ok, ok-injective, arith, if◌then◌else◌, Bool-cases, ltb_iff, inl, inr,
}
use simply_sats.Fees.{FeeRate}
use simply_sats.Builder.{RecipientOutput}
use simply_sats.Chain.{Bytes, ChainError, Crypto}
use simply_sats.Chain.Keys.{wif_to_private_key, private_key_to_address}
use simply_sats.Chain.Signing.{TxUtxo, Keys, signed_transaction}
use simply_sats.Chain.Building.{
  KeyedUtxo, BuiltTx, outpoint_of, fee_of, will_have_change, planned_outputs, change_after,
  keys_from, keys_of_wif, output_to, change_outputs, outputs_to, pay_one, build_p2pkh_tx,
  build_multi_key_p2pkh_tx,
}
use simply_sats.Chain.Signed.{IsSpendable, HasCompressedKeys}
use simply_sats.Chain.Paying.{
  Pays, sum_paid-change, length-change_recipients_le, outputs_to-cons, change_recipients,
  change_outputs-outputs_to, signed_transaction-Pays,
}

pub change_after-balance :
    (total satoshis fee change : ℕ)
    → change_after total satoshis fee ≡ ok change
    → satoshis + fee + change ≡ total
change_after-balance total satoshis fee change e = ground arith

-- Where the total goes: with more than 100 satoshis left before the fee, all of it is amount, fee and
-- change; otherwise there is no change, and what the fee leaves is lost to the miners.
abbrev pub IsAccounted : ℕ → ℕ → ℕ → ℕ → Type 0
IsAccounted total satoshis fee change =
    (satoshis + 100 < total → satoshis + fee + change ≡ total)
    × (total ≤ satoshis + 100 → (change ≡ 0) × (satoshis + fee ≤ total))

kept-IsAccounted :
    (total satoshis fee change : ℕ)
    → satoshis + fee + change ≡ total
    → IsAccounted total satoshis fee (if will_have_change total satoshis then change else 0)
      × (satoshis + (if will_have_change total satoshis then change else 0) ≤ total)
kept-IsAccounted total satoshis fee change e = elim (Bool-cases (will_have_change total satoshis)) [
  | inl f ↦
      let p : 100 < total - satoshis = (ltb_iff 100 (total - satoshis)).0 f in
      rw f ((λ h. e, λ h. absurd (omega arith)), omega arith)
  | inr f ↦
      let p : total - satoshis ≤ 100 = ground (arith, f) in
      rw f ((λ h. absurd (omega arith), λ h. (refl, omega arith)), omega arith)
]

module _ (crypto : Crypto) (compressed : HasCompressedKeys crypto) where
  pub keys_from-compressed :
      (priv_key : Bytes) (keys : Keys)
      → keys_from crypto priv_key ≡ ok keys
      → length keys.pub_key ≡ 33
  keys_from-compressed priv_key keys e =
      let (key, f, g) = bind_ok (crypto.get_public_key priv_key) _ e in
      ap (λ k. length k.pub_key) (sym (ok-injective g)) ∙ compressed priv_key key f

  keys_of_wif-compressed :
      (wif : ℕ) (keys : Keys) → keys_of_wif crypto wif ≡ ok keys → length keys.pub_key ≡ 33
  keys_of_wif-compressed wif keys e =
      let (priv_key, f, g) = bind_ok (wif_to_private_key crypto wif) (keys_from crypto) e in
      keys_from-compressed priv_key keys g

  pay_one-Pays :
      {A : Type 0} (coin : A → TxUtxo) (keys_of : A → Result Keys ChainError) (change_address : ℕ)
      (to : RecipientOutput) (utxos : List A) (total : ℕ) (rate : FeeRate) (r : BuiltTx)
      → ((x : A) (keys : Keys) → keys_of x ≡ ok keys → length keys.pub_key ≡ 33)
      → All (λ x. IsSpendable (coin x)) utxos
      → length utxos < 2 ^ 32
      → total < 2 ^ 53
      → pay_one crypto coin keys_of change_address to utxos total rate ≡ ok r
      → Pays crypto r.raw_tx
          (map (λ x. outpoint_of (coin x)) utxos)
          (to ∷ change_recipients r.change_address r.change)
        × IsAccounted total to.satoshis r.fee r.change
  unfolding pay_one
  pay_one-Pays coin keys_of change_address to utxos total rate r k h n t e =
      let wanted = will_have_change total to.satoshis in
      let (fee, f, e1) =
        bind_ok (fee_of (length utxos) (planned_outputs total to.satoshis) rate) _ e in
      let (change, g, e2) = bind_ok (change_after total to.satoshis fee) _ e1 in
      let (payment, p, e3) = bind_ok (output_to crypto to.address to.satoshis) _ e2 in
      let (rest, q, e4) = bind_ok (change_outputs crypto wanted change_address change) _ e3 in
      let (raw, s, e5) =
        bind_ok (signed_transaction crypto coin keys_of utxos (payment ∷ rest)) _ e4 in
      let balance = change_after-balance total to.satoshis fee change g in
      let kept = if wanted then change else 0 in
      let outs : outputs_to crypto (to ∷ change_recipients change_address kept)
          ≡ ok (payment ∷ rest) =
        outputs_to-cons crypto to (change_recipients change_address kept) payment rest p
          (change_outputs-outputs_to crypto wanted change_address change rest q) in
      let account = kept-IsAccounted total to.satoshis fee change balance in
      subst
        (λ r.
          Pays crypto r.raw_tx (map (λ x. outpoint_of (coin x)) utxos)
            (to ∷ change_recipients r.change_address r.change)
          × IsAccounted total to.satoshis r.fee r.change)
        (ok-injective e5)
        (
          signed_transaction-Pays crypto coin keys_of utxos
              (to ∷ change_recipients change_address kept) (payment ∷ rest) raw k h n
              (omega (arith, length-change_recipients_le change_address kept))
              (omega (arith, sum_paid-change change_address kept, account.1)) outs s,
          account.0,
        )

  -- A payment built and signed with one key spends the given coins in their order and pays the recipient,
  -- then the change if there is any, and its satoshis are accounted for; with public keys of 33 bytes,
  -- txids of 32 and indices of 4, fewer than 2 ^ 32 coins, and a total below 2 ^ 53.
  pub build_p2pkh_tx-Pays :
      (wif : ℕ) (to : RecipientOutput) (utxos : List TxUtxo) (total : ℕ) (rate : FeeRate)
      (r : BuiltTx)
      → All IsSpendable utxos
      → length utxos < 2 ^ 32
      → total < 2 ^ 53
      → build_p2pkh_tx crypto wif to utxos total rate ≡ ok r
      → Pays crypto r.raw_tx
          (map outpoint_of utxos)
          (to ∷ change_recipients r.change_address r.change)
        × IsAccounted total to.satoshis r.fee r.change
  unfolding build_p2pkh_tx
  build_p2pkh_tx-Pays wif to utxos total rate r h n t e =
      let (priv_key, f, e1) = bind_ok (wif_to_private_key crypto wif) _ e in
      let (keys, g, e2) = bind_ok (keys_from crypto priv_key) _ e1 in
      let (address, p, e3) = bind_ok (private_key_to_address crypto priv_key) _ e2 in
      pay_one-Pays (λ u. u) (λ u. ok keys) address to utxos total rate r
        (λ x k q.
          ap (λ k. length k.pub_key) (sym (ok-injective q)) ∙ keys_from-compressed priv_key keys g)
        h n t e3

  -- The same for a payment from coins with a key each.
  build_multi_key_p2pkh_tx-Pays :
      (wif : ℕ) (to : RecipientOutput) (utxos : List KeyedUtxo) (total : ℕ) (rate : FeeRate)
      (r : BuiltTx)
      → All (λ u. IsSpendable u.utxo) utxos
      → length utxos < 2 ^ 32
      → total < 2 ^ 53
      → build_multi_key_p2pkh_tx crypto wif to utxos total rate ≡ ok r
      → Pays crypto r.raw_tx
          (map (λ u. outpoint_of u.utxo) utxos)
          (to ∷ change_recipients r.change_address r.change)
        × IsAccounted total to.satoshis r.fee r.change
  unfolding build_multi_key_p2pkh_tx
  build_multi_key_p2pkh_tx-Pays wif to utxos total rate r h n t e =
      let (priv_key, f, e1) = bind_ok (wif_to_private_key crypto wif) _ e in
      let (address, p, e3) = bind_ok (private_key_to_address crypto priv_key) _ e1 in
      pay_one-Pays (λ u. u.utxo) (λ u. keys_of_wif crypto u.wif) address to utxos total rate r
        (λ u. keys_of_wif-compressed u.wif) h n t e3
