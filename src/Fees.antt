-- ===== src/Fees.antt =====
-- Fees (src/domain/transaction/fees.ts) and the change heuristic of the builder
-- (`calculateChangeAndFee` of src/domain/transaction/builder.ts).
-- A fee rate is a double, and the code reads it in two ways only: the guard of `feeFromBytes`
-- (finite and not negative), and `Math.ceil(bytes * feeRate)`. A rate is what these two give.
pub mod Change
pub mod Estimates
use simply_sats.Prelude.{
  ℕ, ◌+◌, ◌-◌, ◌*◌, max, Bool, true, false, ◌||◌, List, [], ◌∷◌, ltb, leb, ◌==◌, if◌then◌else◌,
  length, sum_by, Result, ok, err, ◌>>=◌,
}
use simply_sats.Types.{Utxo}
use simply_sats.Coins.{accumulate}

pub record FeeRate : Type 0 where
  pub is_valid : Bool
  pub ceil_times : ℕ → ℕ

-- What the code throws, without the wording.
pub data TxError : Type 0 where
  invalid_fee_rate : TxError
  -- What is needed, and what is there.
  insufficient_funds : ℕ → ℕ → TxError

abbrev pub p2pkh_input_size : ℕ
p2pkh_input_size = 148

abbrev pub p2pkh_output_size : ℕ
p2pkh_output_size = 34

abbrev pub tx_overhead : ℕ
tx_overhead = 10

abbrev pub dust_threshold : ℕ
dust_threshold = 100

unfoldable pub varint_size : ℕ → ℕ
varint_size n =
    if ltb n 0xfd then 1 else if leb n 0xffff then 3 else if leb n 0xffffffff then 5 else 9

-- A byte count is a natural number, so the guard on `bytes` never throws.
unfoldable pub fee_from_bytes : ℕ → FeeRate → Result ℕ TxError
fee_from_bytes bytes rate =
    if rate.is_valid then ok (max 1 (rate.ceil_times bytes)) else err invalid_fee_rate

unfoldable pub calculate_tx_fee : ℕ → ℕ → FeeRate → ℕ → Result ℕ TxError
unfolding fee_from_bytes
calculate_tx_fee num_inputs num_outputs rate extra_bytes =
    fee_from_bytes
      (tx_overhead + num_inputs * p2pkh_input_size + num_outputs * p2pkh_output_size + extra_bytes)
      rate

unfoldable pub calculate_lock_fee : ℕ → FeeRate → ℕ → ℕ → Result ℕ TxError
unfolding fee_from_bytes varint_size
calculate_lock_fee num_inputs rate timelock_script_size extra_bytes =
    let lock_output_size : ℕ = 8 + varint_size timelock_script_size + timelock_script_size in
    fee_from_bytes
      (tx_overhead
        + num_inputs * p2pkh_input_size
        + lock_output_size
        + p2pkh_output_size
        + extra_bytes)
      rate

pub record MaxSendResult : Type 0 where
  pub max_sats : ℕ
  pub fee : ℕ
  pub num_inputs : ℕ

-- `Math.max(0, totalSats - fee)` is the subtraction of naturals.
unfoldable pub calculate_max_send : List Utxo → FeeRate → Result MaxSendResult TxError
unfolding calculate_tx_fee
calculate_max_send [] rate = ok (record { max_sats = 0; fee = 0; num_inputs = 0 })
calculate_max_send (u ∷ us) rate = do
  fee ← calculate_tx_fee (length (u ∷ us)) 1 rate 0
  ok (record {
    max_sats = sum_by (λ (v : Utxo). v.satoshis) (u ∷ us) - fee;
    fee = fee;
    num_inputs = length (u ∷ us);
  })

pub record FeeEstimate : Type 0 where
  pub fee : ℕ
  pub input_count : ℕ
  pub output_count : ℕ
  pub total_input : ℕ
  pub can_send : Bool

-- What `calculateExactFee` does once the inputs are gathered.
unfoldable pub estimate_with : ℕ → ℕ → ℕ → FeeRate → Result FeeEstimate TxError
unfolding calculate_tx_fee
estimate_with satoshis num_inputs total_input rate =
    if ltb total_input satoshis
    then ok (record {
      fee = 0;
      input_count = num_inputs;
      output_count = 0;
      total_input = total_input;
      can_send = false;
    })
    else do
      let num_outputs : ℕ = if ltb (satoshis + dust_threshold) total_input then 2 else 1
      fee ← calculate_tx_fee num_inputs num_outputs rate 0
      ok (record {
        fee = fee;
        input_count = num_inputs;
        output_count = num_outputs;
        total_input = total_input;
        can_send = leb (satoshis + fee) total_input;
      })

-- The loop takes the inputs in the order given, until they reach `satoshis + 100`.
unfoldable pub calculate_exact_fee : ℕ → List Utxo → FeeRate → Result FeeEstimate TxError
unfolding estimate_with accumulate
calculate_exact_fee satoshis utxos rate =
    if length utxos == 0 || satoshis == 0
    then ok
        (record { fee = 0; input_count = 0; output_count = 0; total_input = 0; can_send = false })
    else let (inputs_to_use, total_input) = accumulate (λ u. u.satoshis) (satoshis + 100) 0 utxos in
      estimate_with satoshis (length inputs_to_use) total_input rate

pub record ChangeAndFee : Type 0 where
  pub fee : ℕ
  pub change : ℕ
  pub num_outputs : ℕ

-- `prelimChange > 100` and `change < 0`, with the subtractions moved over.
unfoldable pub calculate_change_and_fee : ℕ → ℕ → ℕ → FeeRate → Result ChangeAndFee TxError
unfolding calculate_tx_fee
calculate_change_and_fee total_input satoshis num_inputs rate = do
  let num_outputs : ℕ = if ltb (satoshis + 100) total_input then 2 else 1
  fee ← calculate_tx_fee num_inputs num_outputs rate 0
  if ltb total_input (satoshis + fee)
      then err (insufficient_funds (satoshis + fee) total_input)
      else ok
          (record { fee = fee; change = total_input - satoshis - fee; num_outputs = num_outputs })
