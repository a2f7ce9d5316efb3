-- ===== src/Transactions/Keyed.antt =====
-- The key of `transactions`, UNIQUE(txid, account_id), seen through filters and orders.
use simply_sats.Prelude.{
  ℕ, ◌≡◌, refl, sym, ◌∙◌, subst, Bool, true, false, ◌&&◌, ◌||◌, List, [], ◌∷◌, filter, any, All,
  All-imp, ◌==◌, Bool-cases, inl, inr, arith,
}
use simply_sats.Transactions.Defs.{TxRow, is_tx, is_pending}
use simply_sats.Transactions.Queries.{insert_before, order_by}

-- No two transactions share a txid and an account.
abbrev pub AreKeyed : List TxRow → Type 0
AreKeyed [] = Unit
AreKeyed (r ∷ rs) = All (λ q. is_tx q.txid q.account_id r ≡ false) rs × AreKeyed rs

-- The only row under its key.
abbrev pub IsAlone : TxRow → List TxRow → Type 0
IsAlone r rs = All (λ q. is_tx q.txid q.account_id r ≡ true → q ≡ r) rs

absurd_bool {ℓ} : {A : Type ℓ} (b : Bool) → b ≡ false → b ≡ true → A
absurd_bool b e f = ground (arith, e, f)

is_tx_sym : (q r : TxRow) → is_tx q.txid q.account_id r ≡ is_tx r.txid r.account_id q
is_tx_sym q r = ground arith

-- Both of two predicates.
All-and {ℓ κ ι} :
    {A : Type ℓ} (P : A → Type κ) (Q : A → Type ι) (xs : List A)
    → All P xs
    → All Q xs
    → All (λ a. P a × Q a) xs
All-and P Q [] p q = tt
All-and P Q (x ∷ xs) p q = ((p.0, q.0), All-and P Q xs p.1 q.1)

pub AreKeyed-IsAlone : (rs : List TxRow) → AreKeyed rs → All (λ r. IsAlone r rs) rs
AreKeyed-IsAlone [] keyed = tt
AreKeyed-IsAlone (x ∷ xs) keyed = (
  (
    λ e. refl,
    All-imp (λ q. is_tx q.txid q.account_id x ≡ false)
        (λ q. is_tx q.txid q.account_id x ≡ true → q ≡ x) xs
        (λ q no yes. absurd_bool (is_tx q.txid q.account_id x) no yes) keyed.0,
  ),
  All-imp (λ r. (is_tx r.txid r.account_id x ≡ false) × IsAlone r xs) (λ r. IsAlone r (x ∷ xs)) xs
      (λ r h.
        (λ yes. absurd_bool (is_tx r.txid r.account_id x) h.0 (sym (is_tx_sym x r) ∙ yes), h.1))
      (All-and (λ r. is_tx r.txid r.account_id x ≡ false) (λ r. IsAlone r xs) xs keyed.0
        (AreKeyed-IsAlone xs keyed.1)),
)

module _ {ℓ} {A : Type ℓ} where
  pub All-filter_imp {κ ι} :
      (P : A → Type κ) (Q : A → Type ι) (p : A → Bool) (xs : List A)
      → ((a : A) → p a ≡ true → P a → Q a)
      → All P xs
      → All Q (filter p xs)
  All-filter_imp P Q p [] f h = tt
  All-filter_imp P Q p (x ∷ xs) f h = elim (Bool-cases (p x)) [
    | inl e ↦ rw e (f x e h.0, All-filter_imp P Q p xs f h.1)
    | inr e ↦ rw e (All-filter_imp P Q p xs f h.1)
  ]

  All-insert_before {κ} :
      (P : A → Type κ) (before : A → A → Bool) (x : A) (xs : List A)
      → P x
      → All P xs
      → All P (insert_before before x xs)
  unfolding insert_before
  All-insert_before P before x [] h hs = (h, tt)
  All-insert_before P before x (y ∷ ys) h hs = elim (Bool-cases (before x y)) [
    | inl e ↦ rw e (h, hs)
    | inr e ↦ rw e (hs.0, All-insert_before P before x ys h hs.1)
  ]

  pub All-order_by {κ} :
      (P : A → Type κ) (before : A → A → Bool) (xs : List A) → All P xs → All P (order_by before xs)
  unfolding order_by
  All-order_by P before [] hs = tt
  All-order_by P before (x ∷ xs) hs =
      All-insert_before P before x (order_by before xs) hs.0 (All-order_by P before xs hs.1)

  any-insert_before :
      (p : A → Bool) (before : A → A → Bool) (x : A) (xs : List A)
      → any p (insert_before before x xs) ≡ (p x || any p xs)
  unfolding insert_before
  any-insert_before p before x [] = refl
  any-insert_before p before x (y ∷ ys) = ground (arith, any-insert_before p before x ys)

  pub any-order_by :
      (p : A → Bool) (before : A → A → Bool) (xs : List A) → any p (order_by before xs) ≡ any p xs
  unfolding order_by
  any-order_by p before [] = refl
  any-order_by p before (x ∷ xs) =
      ground (arith, any-insert_before p before x (order_by before xs), any-order_by p before xs)

  pub any-filter : (p q : A → Bool) (xs : List A) → any q (filter p xs) ≡ any (λ a. p a && q a) xs
  any-filter p q [] = refl
  any-filter p q (x ∷ xs) = ground (arith, any-filter p q xs)

  any_self : (g : A → A → Bool) (xs : List A) → All (λ r. g r r ≡ true → any (g r) xs ≡ true) xs
  any_self g [] = tt
  any_self g (x ∷ xs) = (
    λ e. rw e refl,
    All-imp (λ r. g r r ≡ true → any (g r) xs ≡ true)
        (λ r. g r r ≡ true → any (g r) (x ∷ xs) ≡ true) xs (λ r h e. ground (arith, h e))
        (any_self g xs),
  )

  any-forced :
      (g : A → Bool) (b : Bool) (xs : List A)
      → All (λ q. g q ≡ true → b ≡ true) xs
      → any g xs ≡ true
      → b ≡ true
  any-forced g b [] h e = ground (arith, e)
  any-forced g b (x ∷ xs) h e = elim (Bool-cases (g x)) [
    | inl e' ↦ h.0 e'
    | inr e' ↦ any-forced g b xs h.1 (ground (arith, e', e))
  ]

both_or_neither : (a b : Bool) → (a ≡ true → b ≡ true) → (b ≡ true → a ≡ true) → a ≡ b
both_or_neither true b f g = sym (f refl)
both_or_neither false true f g = g refl
both_or_neither false false f g = refl

-- `is_pending(status) AND account_id = $1`
abbrev pub is_pending_of : ℕ → TxRow → Bool
is_pending_of account q = is_pending q.status && q.account_id == account

same_key :
    (account : ℕ) (q r : TxRow)
    → (is_pending_of account q && is_tx q.txid account r) ≡ true
    → is_tx q.txid q.account_id r ≡ true
same_key account q r e = ground (arith, e)

looked_for_pending :
    (account : ℕ) (q r : TxRow)
    → (is_pending_of account q && is_tx q.txid account r) ≡ true
    → is_pending_of account q ≡ true
looked_for_pending account q r e = ground (arith, e)

looked_for_self :
    (account : ℕ) (r : TxRow)
    → is_pending_of account r ≡ true
    → (is_pending_of account r && is_tx r.txid account r) ≡ true
looked_for_self account r e = ground (arith, e)

-- A row of the table is the only one under its key, and among the pending ones of the account if it is
-- one itself.
pub any-pending :
    (account : ℕ) (rows : List TxRow)
    → AreKeyed rows
    → All
        (λ r.
          IsAlone r rows
          × (any (λ q. is_tx q.txid account r) (filter (is_pending_of account) rows)
              ≡ is_pending_of account r))
        rows
any-pending account rows keyed =
    let looked_for : TxRow → TxRow → Bool =
      λ r q. is_pending_of account q && is_tx q.txid account r in
    All-imp (λ r. IsAlone r rows × (looked_for r r ≡ true → any (looked_for r) rows ≡ true))
      (λ r.
        IsAlone r rows
        × (any (λ q. is_tx q.txid account r) (filter (is_pending_of account) rows)
            ≡ is_pending_of account r))
      rows
      (λ r h. (
        h.0,
        any-filter (is_pending_of account) (λ q. is_tx q.txid account r) rows
            ∙ both_or_neither (any (looked_for r) rows) (is_pending_of account r)
                (any-forced (looked_for r) (is_pending_of account r) rows (
                  All-imp (λ q. is_tx q.txid q.account_id r ≡ true → q ≡ r)
                    (λ q. looked_for r q ≡ true → is_pending_of account r ≡ true) rows
                    (λ q same e.
                      subst (λ x. is_pending_of account x ≡ true) (same (same_key account q r e))
                        (looked_for_pending account q r e))
                    h.0))
                (λ e. h.1 (looked_for_self account r e)),
      ))
      (All-and (λ r. IsAlone r rows) (λ r. looked_for r r ≡ true → any (looked_for r) rows ≡ true)
        rows (AreKeyed-IsAlone rows keyed) (any_self looked_for rows))
