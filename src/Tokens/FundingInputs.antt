-- ===== src/Tokens/FundingInputs.antt =====
-- The funding inputs of a token transfer.
use simply_sats.Prelude.{
  ℕ, ◌+◌, ◌<◌, ◌≡◌, refl, ◌∙◌, sym, ap, inl, inr, List, [], ◌∷◌, ◌++◌, subst, append_assoc,
  append-nil, arith, ltb, min, length, length-append, sum_by, sum_by-append, Bool-cases, Result, ok,
  err, Result-cases,
}
use simply_sats.Types.{Utxo}
use simply_sats.Coins.{accumulate}
use simply_sats.Fees.{TxError}
use simply_sats.Tokens.Selection.{Funding, top_up, left_after, select_funding}

-- A funding that stands for the first part of the coins, with the fee of its own size.
pub record IsFunding (fee_for : ℕ → Result ℕ TxError) (f : Funding) : Type 0 where
  pub value : f.total ≡ sum_by (λ (u : Utxo). u.satoshis) f.used
  pub paid : fee_for (length f.used) ≡ ok f.fee

-- A funding that cannot pay has taken every coin.
abbrev pub TakesAll : List Utxo → Funding → Type 0
TakesAll us f = f.total < f.fee → f.used ≡ us

-- What a result satisfies when there is one.
abbrev pub IfOk {ℓ κ ι} : {A : Type ℓ} {E : Type κ} → (A → Type ι) → Result A E → Type ι
IfOk P (ok a) = P a
IfOk P (err e) = Unit

pub IfOk-apply {ℓ κ ι} :
    {A : Type ℓ} {E : Type κ} (P : A → Type ι) (r : Result A E) (a : A) → r ≡ ok a → IfOk P r → P a
IfOk-apply P r a e h = subst (IfOk P) e h

abbrev pub IsResult : (ℕ → Result ℕ TxError) → List Utxo → Funding → Type 0
IsResult fee_for us g = IsFunding fee_for g × TakesAll us g

-- The funding with one coin more.
abbrev grown : Funding → Utxo → ℕ → Funding
grown f next fee = record { used = f.used ++ next ∷ []; total = f.total + next.satoshis; fee = fee }

grown-IsFunding :
    (fee_for : ℕ → Result ℕ TxError) (f : Funding) (next : Utxo) (fee : ℕ)
    → IsFunding fee_for f
    → fee_for (length f.used + 1) ≡ ok fee
    → IsFunding fee_for (grown f next fee)
grown-IsFunding fee_for f next fee w q = record {
  value = omega (arith, w.value, sum_by-append (λ (u : Utxo). u.satoshis) f.used (next ∷ []));
  paid = ap fee_for (length-append f.used (next ∷ [])) ∙ q;
}

top_up_lem :
    (fee_for : ℕ → Result ℕ TxError) (rest : List Utxo) (f : Funding)
    → IsFunding fee_for f
    → IfOk (IsResult fee_for (f.used ++ rest)) (top_up fee_for rest f)
unfolding top_up
top_up_lem fee_for [] f w = (w, λ _. sym (append-nil f.used))
top_up_lem fee_for (next ∷ rest) f w = elim (Bool-cases (ltb f.total (f.fee + 100))) [
  | inl e ↦ elim (Result-cases (fee_for (length f.used + 1))) [
    | inl (fee, q) ↦ rw e (
        rw q (
          subst (λ us. IfOk (IsResult fee_for us) (top_up fee_for rest (grown f next fee)))
            (append_assoc f.used (next ∷ []) rest)
            (top_up_lem fee_for rest (grown f next fee) (grown-IsFunding fee_for f next fee w q))))
    | inr (x, q) ↦ rw e (rw q tt)
  ]
  | inr e ↦ rw e (w, λ short. absurd (ground (arith, e)))
]

accumulate-left_after :
    (target total : ℕ) (us : List Utxo)
    → (accumulate (λ u. u.satoshis) target total us).0 ++ left_after target total us ≡ us
unfolding accumulate
accumulate-left_after target total [] = refl
accumulate-left_after target total (u ∷ us) =
    ground (arith, accumulate-left_after target (total + u.satoshis) us)

accumulate-value :
    (target total : ℕ) (us : List Utxo)
    → let r = accumulate (λ (u : Utxo). u.satoshis) target total us in
      r.1 ≡ total + sum_by (λ u. u.satoshis) r.0
unfolding accumulate
accumulate-value target total [] = omega arith
accumulate-value target total (u ∷ us) =
    ground (arith, accumulate-value target (total + u.satoshis) us)

pub select_funding_lem :
    (fee_for : ℕ → Result ℕ TxError) (us : List Utxo)
    → IfOk (IsResult fee_for us) (select_funding fee_for us)
unfolding select_funding
select_funding_lem fee_for us = elim (Result-cases (fee_for (min (length us) 2))) [
  | inr (x, q) ↦ rw q tt
  | inl (guess, q) ↦
      let taken = accumulate (λ (u : Utxo). u.satoshis) (guess + 100) 0 us in
      elim (Result-cases (fee_for (length taken.0))) [
        | inr (x, p) ↦ rw q (rw p tt)
        | inl (fee, p) ↦ rw q (
            rw p (
              subst
                (λ l. IfOk (IsResult fee_for l) (
                  top_up fee_for (left_after (guess + 100) 0 us)
                    (record { used = taken.0; total = taken.1; fee = fee })))
                (accumulate-left_after (guess + 100) 0 us)
                (top_up_lem fee_for (left_after (guess + 100) 0 us) _ (record {
                  value = omega (arith, accumulate-value (guess + 100) 0 us);
                  paid = p;
                }))))
      ]
]
