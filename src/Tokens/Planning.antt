-- ===== src/Tokens/Planning.antt =====
-- What the selection of a token transfer promises.
use simply_sats.Prelude.{
  ℕ, ◌+◌, ◌≤◌, ◌<◌, if◌then◌else◌, ◌≡◌, inl, inr, List, [], ◌∷◌, ◌++◌, subst, arith, ltb, length,
  sum_by, Bool-cases, Result, ok, err, Result-cases,
}
use simply_sats.Types.{Utxo}
use simply_sats.Fees.{FeeRate, TxError, calculate_tx_fee}
use simply_sats.Tokens.Selection.{
  TokenUtxo, TransferError, insufficient_bsv, pick_tokens, select_funding, Plan, plan_transfer,
}
use simply_sats.Tokens.FundingInputs.{IfOk-apply, IsResult, select_funding_lem}

pick_tokens-total :
    (amount added : ℕ) (us : List TokenUtxo)
    → let (picked, total) = pick_tokens amount added us in
      total ≡ added + sum_by (λ u. u.amt) picked
unfolding pick_tokens
pick_tokens-total amount added [] = omega arith
pick_tokens-total amount added (u ∷ us) =
    ground (arith, pick_tokens-total amount (added + u.amt) us)

pick_tokens-enough :
    (amount added : ℕ) (us : List TokenUtxo)
    → amount ≤ added + sum_by (λ u. u.amt) us
    → amount ≤ (pick_tokens amount added us).1
unfolding pick_tokens
pick_tokens-enough amount added [] h = omega arith
pick_tokens-enough amount added (u ∷ us) h =
    ground (arith, pick_tokens-enough amount (added + u.amt) us)

-- The tokens cover the amount, and the funding pays the fee of the transaction.
pub record Covers (rate : FeeRate) (amount : ℕ) (p : Plan) : Type 0 where
  pub tokens : amount ≤ sum_by (λ (u : TokenUtxo). u.amt) p.token_inputs
  pub value : p.funding.total ≡ sum_by (λ (u : Utxo). u.satoshis) p.funding.used
  pub fee :
      calculate_tx_fee (length p.token_inputs + length p.funding.used) p.num_outputs rate 0
      ≡ ok p.funding.fee
  pub paid : p.funding.fee ≤ p.funding.total

-- All the funding coins together do not pay the fee of spending them all.
abbrev pub IsTooPoor : FeeRate → List TokenUtxo → List Utxo → ℕ → Type 0
IsTooPoor rate picked funding_utxos fee =
    (num_outputs : ℕ) × (calculate_tx_fee (length picked + length funding_utxos) num_outputs rate 0
      ≡ ok fee)
    × (sum_by (λ (u : Utxo). u.satoshis) funding_utxos < fee)

abbrev Verdict : FeeRate → List TokenUtxo → ℕ → List Utxo → Result Plan TransferError → Type 0
Verdict rate token_utxos amount funding_utxos (ok p) = Covers rate amount p
Verdict rate token_utxos amount funding_utxos (err (insufficient_bsv fee)) =
    IsTooPoor rate (pick_tokens amount 0 token_utxos).0 funding_utxos fee
Verdict rate token_utxos amount funding_utxos (err _) = Unit

plan_transfer-Verdict :
    (rate : FeeRate) (token_utxos : List TokenUtxo) (amount : ℕ) (funding_utxos : List Utxo)
    → Verdict rate token_utxos amount funding_utxos
        (plan_transfer rate token_utxos amount funding_utxos)
unfolding plan_transfer
plan_transfer-Verdict rate token_utxos amount funding_utxos =
    let picked = pick_tokens amount 0 token_utxos in
    let num_outputs : ℕ = if ltb amount picked.1 then 3 else 2 in
    let fee_for : ℕ → Result ℕ TxError =
      λ n. calculate_tx_fee (length picked.0 + n) num_outputs rate 0 in
    elim (Bool-cases (ltb (sum_by (λ (u : TokenUtxo). u.amt) token_utxos) amount)) [
      | inl e ↦ rw e tt
      | inr e ↦ elim (Result-cases (select_funding fee_for funding_utxos)) [
        | inr (x, q) ↦ rw e (rw q tt)
        | inl (f, q) ↦
            let w =
              IfOk-apply (IsResult fee_for funding_utxos) _ f q
                (select_funding_lem fee_for funding_utxos) in
            rw e (
              rw q (elim (Bool-cases (ltb f.total f.fee)) [
                | inl s ↦
                    let whole = w.1 (ground (arith, s)) in
                    rw s (
                      num_outputs,
                      subst (λ us. fee_for (length us) ≡ ok f.fee) whole w.0.paid,
                      subst (λ us. sum_by (λ (u : Utxo). u.satoshis) us < f.fee) whole
                          (ground (arith, s, w.0.value)),
                    )
                | inr s ↦ rw s (record {
                  tokens = omega (
                    arith,
                    pick_tokens-total amount 0 token_utxos,
                    pick_tokens-enough amount 0 token_utxos (ground (arith, e)),
                  );
                  value = w.0.value;
                  fee = w.0.paid;
                  paid = ground (arith, s);
                })
              ]))
      ]
    ]

-- A planned transfer covers the amount with its token inputs, and its funding inputs pay the fee
-- of a transaction with exactly the chosen inputs and outputs.
pub plan_transfer-Covers :
    (rate : FeeRate) (token_utxos : List TokenUtxo) (amount : ℕ) (funding_utxos : List Utxo)
    (p : Plan)
    → plan_transfer rate token_utxos amount funding_utxos ≡ ok p
    → Covers rate amount p
plan_transfer-Covers rate token_utxos amount funding_utxos p e =
    subst (Verdict rate token_utxos amount funding_utxos) e
      (plan_transfer-Verdict rate token_utxos amount funding_utxos)

-- A transfer is refused for the fee only when all the funding coins together do not pay for a
-- transaction that spends every one of them.
plan_transfer-IsTooPoor :
    (rate : FeeRate) (token_utxos : List TokenUtxo) (amount : ℕ) (funding_utxos : List Utxo)
    (fee : ℕ)
    → plan_transfer rate token_utxos amount funding_utxos ≡ err (insufficient_bsv fee)
    → IsTooPoor rate (pick_tokens amount 0 token_utxos).0 funding_utxos fee
plan_transfer-IsTooPoor rate token_utxos amount funding_utxos fee e =
    subst (Verdict rate token_utxos amount funding_utxos) e
      (plan_transfer-Verdict rate token_utxos amount funding_utxos)

-- The token inputs without the last one do not reach what is missing of the amount.
pick_tokens-IsMinimal :
    (amount added : ℕ) (us init : List TokenUtxo) (last : TokenUtxo)
    → (pick_tokens amount added us).0 ≡ init ++ last ∷ []
    → added + sum_by (λ u. u.amt) init < amount
unfolding pick_tokens
pick_tokens-IsMinimal amount added [] [] last h = absurd (ground (arith, h))
pick_tokens-IsMinimal amount added [] (v ∷ init) last h = absurd (ground (arith, h))
pick_tokens-IsMinimal amount added (u ∷ us) [] last h = ground arith
pick_tokens-IsMinimal amount added (u ∷ us) (v ∷ init) last h =
    ground (arith, h, pick_tokens-IsMinimal amount (added + u.amt) us init last)
