-- ===== src/Fees/Estimates.antt =====
-- The estimates shown before a send, against what the builder and the coin selection then accept.
use simply_sats.Prelude.{
  ℕ, ◌+◌, ◌-◌, ◌≤◌, ◌<◌, ◌≡◌, refl, sym, ap, ◌≢◌, inl, inr, true, false, ◌||◌, List, [], ◌∷◌,
  length, sum_by, ◌==◌, Result, ok, err, arith, Bool-cases,
}
use simply_sats.Types.{Utxo}
use simply_sats.Coins.{accumulate, select_coins, default_coin_selection_buffer}
use simply_sats.Coins.Selecting.{select_coins-sufficient}
use simply_sats.Fees.{
  FeeRate, TxError, FeeEstimate, MaxSendResult, insufficient_funds, calculate_tx_fee,
  calculate_max_send, estimate_with, calculate_exact_fee, calculate_change_and_fee,
}

abbrev pub total_value : List Utxo → ℕ
total_value us = sum_by (λ u. u.satoshis) us

abbrev output_count_of : Result FeeEstimate TxError → ℕ
output_count_of (ok e) = e.output_count
output_count_of (err _) = 0

estimate_with-agrees :
    (satoshis n total : ℕ) (rate : FeeRate) (e : FeeEstimate)
    → estimate_with satoshis n total rate ≡ ok e
    → e.output_count ≢ 0
    → (e.can_send ≡ true
        → calculate_change_and_fee e.total_input satoshis e.input_count rate
          ≡ ok (record {
            fee = e.fee;
            change = e.total_input - satoshis - e.fee;
            num_outputs = e.output_count;
          }))
      × (e.can_send ≡ false
          → calculate_change_and_fee e.total_input satoshis e.input_count rate
            ≡ err (insufficient_funds (satoshis + e.fee) e.total_input))
unfolding estimate_with calculate_change_and_fee
estimate_with-agrees satoshis n total rate e h ne = (λ c. ground arith, λ c. ground arith)

-- Where the estimate found inputs, it foretells the builder on the same inputs: it says that the
-- amount can be sent exactly when the builder splits the total, with the same fee and number of
-- outputs, and otherwise the builder throws for want of the estimated fee.
pub calculate_exact_fee-agrees :
    (satoshis : ℕ) (us : List Utxo) (rate : FeeRate) (e : FeeEstimate)
    → calculate_exact_fee satoshis us rate ≡ ok e
    → e.output_count ≢ 0
    → (e.can_send ≡ true
        → calculate_change_and_fee e.total_input satoshis e.input_count rate
          ≡ ok (record {
            fee = e.fee;
            change = e.total_input - satoshis - e.fee;
            num_outputs = e.output_count;
          }))
      × (e.can_send ≡ false
          → calculate_change_and_fee e.total_input satoshis e.input_count rate
            ≡ err (insufficient_funds (satoshis + e.fee) e.total_input))
unfolding calculate_exact_fee
calculate_exact_fee-agrees satoshis us rate e h ne =
    elim (Bool-cases (length us == 0 || satoshis == 0)) [
      | inl empty ↦ absurd (ne (sym (ap output_count_of (rw empty at h))))
      | inr some_coins ↦
          estimate_with-agrees satoshis
            (length (accumulate (λ (u : Utxo). u.satoshis) (satoshis + 100) 0 us).0)
            (accumulate (λ (u : Utxo). u.satoshis) (satoshis + 100) 0 us).1 rate e
            (rw some_coins at h) ne
    ]

-- The maximum and its fee add up to the coins, whenever the coins can pay the fee. The builder
-- makes the same split, with no change, if the fee is at most 100 satoshis; above that it plans a
-- second output, and throws wherever the second output costs more.
pub calculate_max_send-split :
    (us : List Utxo) (rate : FeeRate) (m : MaxSendResult) {fee₂ : ℕ}
    → calculate_max_send us rate ≡ ok m
    → us ≢ []
    → m.fee ≤ total_value us
    → calculate_tx_fee m.num_inputs 2 rate 0 ≡ ok fee₂
    → (m.max_sats + m.fee ≡ total_value us)
      × (m.fee ≤ 100
          → calculate_change_and_fee (total_value us) m.max_sats m.num_inputs rate
            ≡ ok (record { fee = m.fee; change = 0; num_outputs = 1 }))
      × (100 < m.fee
          → m.fee < fee₂
          → calculate_change_and_fee (total_value us) m.max_sats m.num_inputs rate
            ≡ err (insufficient_funds (m.max_sats + fee₂) (total_value us)))
unfolding calculate_max_send calculate_change_and_fee
calculate_max_send-split [] rate m h ne k two = absurd (ne refl)
calculate_max_send-split (u ∷ us) rate m h ne k two =
    (ground arith, λ low. ground arith, λ high more. ground arith)

-- A maximum that costs less than 100 satoshis cannot be sent: the coin selection that `sendBSV`
-- makes with its default buffer calls all the coins together insufficient.
pub calculate_max_send-refused :
    (us : List Utxo) (rate : FeeRate) (m : MaxSendResult)
    → calculate_max_send us rate ≡ ok m
    → 0 < m.max_sats
    → m.fee < 100
    → (select_coins (λ u. u.satoshis) us m.max_sats default_coin_selection_buffer).sufficient
      ≡ false
unfolding calculate_max_send
calculate_max_send-refused [] rate m h pos low = ground arith
calculate_max_send-refused (u ∷ us) rate m h pos low =
    ground
      (arith, select_coins-sufficient (λ (v : Utxo). v.satoshis) (u ∷ us) m.max_sats 100 (λ e. cc))
