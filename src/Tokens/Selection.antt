-- ===== src/Tokens/Selection.antt =====
-- The selection of token and funding inputs, which `transferToken` and `transferTokenFromStore` share
-- word for word. A token amount is a whole number, as `BigInt` gives it.
use simply_sats.Prelude.{
  ℕ, ◌+◌, ◌*◌, ◌-◌, min, Bool, true, false, ◌&&◌, ◌||◌, not, Option, none, some, List, [], ◌∷◌,
  ◌++◌, ltb, leb, ◌==◌, if◌then◌else◌, length, sum_by, Result, ok, err, ◌>>=◌,
}
use simply_sats.Types.{Utxo}
use simply_sats.Coins.{accumulate}
use simply_sats.Fees.{FeeRate, TxError, calculate_tx_fee}

-- The code allows for a missing script, and reads no other field.
pub record TokenUtxo : Type 0 where
  pub txid : ℕ
  pub vout : ℕ
  pub satoshis : ℕ
  pub amt : ℕ
  pub script : Option ℕ

pub data TransferError : Type 0 where
  invalid_recipient invalid_amount needs_tauri no_token_utxos split_tokens : TransferError
  -- What is there, and what is needed.
  insufficient_tokens : ℕ → ℕ → TransferError
  insufficient_bsv : ℕ → TransferError
  -- An exception, which the `catch` turns into a text.
  thrown : TransferError

-- A text by its character codes: `/^\d+$/`, and `BigInt` on what passes it.
abbrev pub all_digits : List ℕ → Bool
all_digits [] = true
all_digits (c ∷ cs) = (leb 48 c && leb c 57) && all_digits cs

abbrev pub is_zero_text : List ℕ → Bool
is_zero_text (c ∷ []) = c == 48
is_zero_text _ = false

abbrev pub read_from : ℕ → List ℕ → ℕ
read_from n [] = n
read_from n (c ∷ cs) = read_from (n * 10 + (c - 48)) cs

unfoldable pub parse_amount : List ℕ → Option ℕ
parse_amount text =
    if (length text == 0 || not (all_digits text)) || is_zero_text text
    then none
    else some (read_from 0 text)

-- The loop over the tokens, which tests before it takes: what it pushes, and `tokensAdded`.
unfoldable pub pick_tokens : ℕ → ℕ → List TokenUtxo → List TokenUtxo × ℕ
pick_tokens amount added [] = ([], added)
pick_tokens amount added (u ∷ us) =
    let rest = pick_tokens amount (added + u.amt) us in
    if leb amount added then ([], added) else (u ∷ rest.0, rest.1)

-- The funding so far: the inputs, their value and the fee for them.
pub record Funding : Type 0 where
  pub used : List Utxo
  pub total : ℕ
  pub fee : ℕ

-- The `while` loop; the list is what `fundingUtxos` has left.
unfoldable pub top_up : (ℕ → Result ℕ TxError) → List Utxo → Funding → Result Funding TxError
top_up fee_for [] f = ok f
top_up fee_for (next ∷ rest) f =
    if ltb f.total (f.fee + 100)
    then (do
      fee ← fee_for (length f.used + 1)
      top_up fee_for rest
          (record { used = f.used ++ next ∷ []; total = f.total + next.satoshis; fee = fee }))
    else ok f

-- What the first `for` loop leaves of the list.
abbrev pub left_after : ℕ → ℕ → List Utxo → List Utxo
left_after target total [] = []
left_after target total (u ∷ us) =
    if leb target (total + u.satoshis) then us else left_after target (total + u.satoshis) us

unfoldable pub select_funding : (ℕ → Result ℕ TxError) → List Utxo → Result Funding TxError
unfolding accumulate top_up
select_funding fee_for utxos = do
  guess ← fee_for (min (length utxos) 2)
  let taken = accumulate (λ u. u.satoshis) (guess + 100) 0 utxos
  fee ← fee_for (length taken.0)
  top_up fee_for (left_after (guess + 100) 0 utxos)
      (record { used = taken.0; total = taken.1; fee = fee })

pub record Plan : Type 0 where
  pub token_inputs : List TokenUtxo
  pub num_outputs : ℕ
  pub funding : Funding

abbrev pub or_throw {ℓ κ} :
    {A : Type ℓ} {B : Type κ}
    → Result A TxError
    → (A → Result B TransferError)
    → Result B TransferError
or_throw (ok a) k = k a
or_throw (err e) k = err thrown

unfoldable pub plan_transfer : FeeRate → List TokenUtxo → ℕ → List Utxo → Result Plan TransferError
unfolding pick_tokens select_funding calculate_tx_fee
plan_transfer rate token_utxos amount funding_utxos =
    let available : ℕ = sum_by (λ u. u.amt) token_utxos in
    if ltb available amount
    then err (insufficient_tokens available amount)
    else let picked = pick_tokens amount 0 token_utxos in
      let num_outputs : ℕ = if ltb amount picked.1 then 3 else 2 in
      or_throw
        (select_funding (λ n. calculate_tx_fee (length picked.0 + n) num_outputs rate 0)
          funding_utxos)
        (λ f.
          if ltb f.total f.fee
          then err (insufficient_bsv f.fee)
          else ok (record { token_inputs = picked.0; num_outputs = num_outputs; funding = f }))
