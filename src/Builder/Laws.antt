-- ===== src/Builder/Laws.antt =====
-- The guards of the multi-output builder.
use simply_sats.Prelude.{
  ℕ, ◌+◌, ◌≤◌, ◌<◌, ◌≡◌, ◌≢◌, refl, true, List, [], ◌∷◌, length, sum_by, ltb, if◌then◌else◌, arith,
  ok, err,
}
use simply_sats.Types.{ExtendedUtxo}
use simply_sats.Fees.{FeeRate, calculate_tx_fee, insufficient_funds}
use simply_sats.Builder.{
  RecipientOutput, BuildCommand, BackendReply, Backend, BuiltMultiOutput, fee_error,
  build_multi_output_p2pkh_tx,
}

-- A multi-output build that succeeds can pay: the inputs cover all recipients and the fee for one
-- more output than there are recipients, at the fee rate given. It reports the sum of the
-- recipients' amounts, and one output more than recipients exactly when there is change.
build_multi_output_p2pkh_tx-covers :
    (invoke : Backend (BuildCommand ExtendedUtxo) BackendReply) (os : List RecipientOutput)
    (selected : List ExtendedUtxo) (total fee : ℕ) (rate : FeeRate) (b : BuiltMultiOutput)
    → build_multi_output_p2pkh_tx true invoke os selected total rate ≡ ok b
    → calculate_tx_fee (length selected) (length os + 1) rate 0 ≡ ok fee
    → (b.total_sent ≡ sum_by (λ o. o.satoshis) os)
      × (b.total_sent + fee ≤ total)
      × (b.num_outputs ≡ (if ltb 0 b.change then length os + 1 else length os))
unfolding build_multi_output_p2pkh_tx
build_multi_output_p2pkh_tx-covers invoke [] selected total fee rate b h f = ground arith
build_multi_output_p2pkh_tx-covers invoke (o ∷ os) selected total fee rate b h f = ground arith

-- When the inputs fall short of this, the build throws, whatever the backend would answer.
build_multi_output_p2pkh_tx-short :
    (invoke : Backend (BuildCommand ExtendedUtxo) BackendReply) (os : List RecipientOutput)
    (selected : List ExtendedUtxo) (total fee : ℕ) (rate : FeeRate)
    → os ≢ []
    → calculate_tx_fee (length selected) (length os + 1) rate 0 ≡ ok fee
    → total < sum_by (λ (o : RecipientOutput). o.satoshis) os + fee
    → build_multi_output_p2pkh_tx true invoke os selected total rate
      ≡ err (
          fee_error
            (insufficient_funds (sum_by (λ (o : RecipientOutput). o.satoshis) os + fee) total))
unfolding build_multi_output_p2pkh_tx
build_multi_output_p2pkh_tx-short invoke [] selected total fee rate ne f short = absurd (ne refl)
build_multi_output_p2pkh_tx-short invoke (o ∷ os) selected total fee rate ne f short = ground arith
