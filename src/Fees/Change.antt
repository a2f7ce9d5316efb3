-- ===== src/Fees/Change.antt =====
-- Fees grow with the transaction, and the change heuristic loses no satoshi.
use simply_sats.Prelude.{ℕ, ◌+◌, ◌*◌, ◌≤◌, ◌<◌, ◌≡◌, ◌↔◌, ok, arith}
use simply_sats.Fees.{FeeRate, ChangeAndFee, calculate_tx_fee, calculate_change_and_fee}

-- More bytes never cost less: rounding is monotone, in doubles too.
abbrev pub IsMonotone : FeeRate → Type 0
IsMonotone rate = (a b : ℕ) → a ≤ b → rate.ceil_times a ≤ rate.ceil_times b

-- At a monotone rate, more inputs, outputs and extra bytes never lower the fee, and no fee is
-- below one satoshi.
calculate_tx_fee_mono :
    (rate : FeeRate) (n m n' m' extra extra' : ℕ) {fee fee' : ℕ}
    → IsMonotone rate
    → n ≤ n'
    → m ≤ m'
    → extra ≤ extra'
    → calculate_tx_fee n m rate extra ≡ ok fee
    → calculate_tx_fee n' m' rate extra' ≡ ok fee'
    → (1 ≤ fee) × (fee ≤ fee')
unfolding calculate_tx_fee
calculate_tx_fee_mono rate n m n' m' extra extra' mono hn hm he p q =
    ground
      (arith, mono (10 + n * 148 + m * 34 + extra) (10 + n' * 148 + m' * 34 + extra') (omega arith))

-- A successful split accounts for every satoshi of the inputs: amount, fee and change add up to
-- the total. It plans a second output exactly when more than 100 satoshis remain before the fee.
pub calculate_change_and_fee_conserves :
    (total_input satoshis num_inputs : ℕ) (rate : FeeRate) (c : ChangeAndFee)
    → calculate_change_and_fee total_input satoshis num_inputs rate ≡ ok c
    → (satoshis + c.fee + c.change ≡ total_input)
      × ((c.num_outputs ≡ 2) ↔ (satoshis + 100 < total_input))
      × (calculate_tx_fee num_inputs c.num_outputs rate 0 ≡ ok c.fee)
unfolding calculate_change_and_fee
calculate_change_and_fee_conserves total_input satoshis num_inputs rate c h = ground arith
