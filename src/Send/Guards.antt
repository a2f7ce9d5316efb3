-- ===== src/Send/Guards.antt =====
-- What must hold before a payment is made.
use simply_sats.Prelude.{
  ℕ, ◌+◌, ◌≤◌, ◌<◌, ◌≡◌, ◌≢◌, ◌⊎◌, ◌↔◌, inl, inr, Bool, true, Option, none, some, List, [], ◌∷◌,
  All, arith, length, sum_by, ok, err, Result-cases,
}
use simply_sats.Types.{Utxo, ExtendedUtxo}
use simply_sats.Coins.Selecting.{select_coins-enough}
use simply_sats.Builder.{RecipientOutput, BuildCommand, BackendReply, Backend, build_p2pkh_tx}
use simply_sats.Send.Record.{Wallet, max_satoshis, validate_send_request, invalid_amount}
use simply_sats.Send.Payments.{Context, send_bsv}
use simply_sats.Send.Outputs.{send_bsv_multi_output, validate_outputs}

-- A recipient that the wallet pays: a valid address, and an amount from 1 to the supply.
abbrev pub IsPayable : (ℕ → Bool) → RecipientOutput → Type 0
IsPayable valid o = (valid o.address ≡ true) × (0 < o.satoshis) × (o.satoshis ≤ max_satoshis)

-- A request passes exactly if it is payable. A bad amount is reported first, as `invalid_amount`.
pub validate_send_request_lem :
    (valid : ℕ → Bool) (o : RecipientOutput)
    → ((validate_send_request valid o.address o.satoshis ≡ ok tt) ↔ IsPayable valid o)
      × (validate_send_request valid o.address o.satoshis ≡ err invalid_amount
          ↔ ((o.satoshis ≡ 0) ⊎ (max_satoshis < o.satoshis)))
unfolding validate_send_request
validate_send_request_lem valid o =
    ((λ h. ground arith, λ h. ground arith), (λ h. ground arith, λ h. ground arith))

validate_outputs-All :
    (valid : ℕ → Bool) (os : List RecipientOutput)
    → validate_outputs valid os ≡ ok tt
    → All (IsPayable valid) os
unfolding validate_outputs
validate_outputs-All valid [] h = tt
validate_outputs-All valid (o ∷ os) h =
    elim (Result-cases (validate_send_request valid o.address o.satoshis)) [
      | inl (u, e) ↦
          ((validate_send_request_lem valid o).0.0 e, validate_outputs-All valid os (rw e at h))
      | inr (x, e) ↦ absurd (ground arith)
    ]

-- `sendBSV` succeeds only for a payable recipient, a given account, and coins that together reach
-- the amount plus the selection buffer of 100 satoshis.
pub send_bsv-guards :
    (c : Context) (invoke : Backend (BuildCommand Utxo) BackendReply) (to : RecipientOutput)
    (utxos : List Utxo) (account : Option ℕ) (w : Wallet) (txid : ℕ)
    → (send_bsv c invoke to utxos account w).0 ≡ ok txid
    → IsPayable c.is_valid_address to
      × (account ≢ none)
      × (to.satoshis + 100 ≤ sum_by (λ u. u.satoshis) utxos)
      × (c.is_tauri ≡ true)
unfolding send_bsv build_p2pkh_tx
send_bsv-guards c invoke to utxos none w txid h = absurd (ground arith)
send_bsv-guards c invoke to utxos (some a) w txid h =
    let enough = select_coins-enough (λ (u : Utxo). u.satoshis) utxos to.satoshis 100 in
    let request = (validate_send_request_lem c.is_valid_address to).0 in
    (ground (arith, request), λ e. cc, ground (arith, enough), ground arith)

-- `sendBSVMultiOutput` succeeds only for 1 to 100 recipients, all of them payable, and a given
-- account.
send_bsv_multi_output-guards :
    (c : Context) (invoke : Backend (BuildCommand ExtendedUtxo) BackendReply)
    (os : List RecipientOutput) (utxos : List ExtendedUtxo) (account : Option ℕ) (w : Wallet)
    (txid : ℕ)
    → (send_bsv_multi_output c invoke os utxos account w).0 ≡ ok txid
    → (1 ≤ length os) × (length os ≤ 100) × All (IsPayable c.is_valid_address) os × (account ≢ none)
unfolding send_bsv_multi_output
send_bsv_multi_output-guards c invoke os utxos none w txid h = absurd (ground arith)
send_bsv_multi_output-guards c invoke os utxos (some a) w txid h =
    let outputs = validate_outputs-All c.is_valid_address os in
    (ground arith, ground arith, ground (arith, outputs), λ e. cc)
