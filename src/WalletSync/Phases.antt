-- ===== src/WalletSync/Phases.antt =====
-- What the two loops of `syncAddress` do to the row at one outpoint.
use simply_sats.Prelude.{
  ◌≡◌, refl, sym, ap, ◌∙◌, subst, Bool, true, false, not, ◌&&◌, ◌⊎◌, Option, none, some, List, [],
  ◌∷◌, arith, ◌==◌, if◌then◌else◌, any, All, Bool-cases, inl, inr,
}
use simply_sats.Types.{Outpoint}
use simply_sats.Store.Adding.{no_fault}
use simply_sats.Store.Defs.{UtxoRow, Store, unspent, spent, is_at, in_account}
use simply_sats.Store.Pending.{mark_utxo_spent}
use simply_sats.Store.Adding.Laws.{find_at, IsValid, get_utxo_by_outpoint-find_at}
use simply_sats.Store.Adding.Rules.{add_utxo-IsValid, add_utxo-IsAdded, add_utxo-others}
use simply_sats.WalletSync.{
  ChainCoin, AddressInfo, Answers, outpoint_of_row, is_known, is_on_chain, is_gone, new_utxo,
  unknown_txid, add_coins, add_coin, mark_gone, mark_row,
}
use simply_sats.WalletSync.Table.{true-false, find_at-update_where, with_row, find_at-is_at}

abbrev pub row_at : Outpoint → Store → Option UtxoRow
row_at o s = find_at o s.rows

abbrev pub sits : Outpoint → ChainCoin → Bool
sits o c = o.txid == c.at.txid && o.vout == c.at.vout

pub sits_eq : (o : Outpoint) (c : ChainCoin) → sits o c ≡ true → o ≡ c.at
sits_eq o c e =
    let p : o.txid ≡ c.at.txid = ground (arith, e) in
    let q : o.vout ≡ c.at.vout = ground (arith, e) in λ i. record { txid = p i; vout = q i }

-- The row at an outpoint is open for spending.
abbrev pub IsOpen : UtxoRow → Type 0
IsOpen r = (r.spendable ≡ true) × (r.spent_at ≡ none) × (r.spending_status ≡ some unspent)

abbrev pub IsOpenAt : Outpoint → Store → Type 0
IsOpenAt o s = (r : UtxoRow) × (row_at o s ≡ some r) × IsOpen r

module _ (info : AddressInfo) (answers : Answers) (existing : List UtxoRow) where
  add_coin-IsValid :
      (c : ChainCoin) (s : Store) → IsValid s → IsValid (add_coin info answers existing c s)
  add_coin-IsValid c s v = elim (Bool-cases (is_known existing c.at)) [
    | inl e ↦ rw e v
    | inr e ↦ rw e (
        add_utxo-IsValid (answers.add_fails c.at) (new_utxo info answers.now c) info.account_id s v)
  ]

  -- A coin that is known, or that sits elsewhere, leaves the row alone.
  add_coin-others :
      (o : Outpoint) (c : ChainCoin) (s : Store)
      → IsValid s
      → (sits o c ≡ true → is_known existing c.at ≡ true)
      → row_at o (add_coin info answers existing c s) ≡ row_at o s
  add_coin-others o c s v h = elim (Bool-cases (is_known existing c.at)) [
    | inl e ↦ rw e refl
    | inr e ↦ rw e (
        sym (get_utxo_by_outpoint-find_at o _)
        ∙ add_utxo-others (answers.add_fails c.at) (new_utxo info answers.now c) info.account_id s o
            v (λ g. true-false (sym (h (ground (arith, g))) ∙ e))
        ∙ get_utxo_by_outpoint-find_at o s)
  ]

  pub add_coins-others :
      (o : Outpoint) (cs : List ChainCoin) (s : Store)
      → IsValid s
      → All (λ c. sits o c ≡ true → is_known existing c.at ≡ true) cs
      → row_at o (add_coins info answers existing cs s) ≡ row_at o s
  unfolding add_coins
  add_coins-others o [] s v h = refl
  add_coins-others o (c ∷ cs) s v h =
      add_coins-others o cs (add_coin info answers existing c s) (add_coin-IsValid c s v) h.1
      ∙ add_coin-others o c s v h.0

  add_coin-IsOpenAt :
      (o : Outpoint) (c : ChainCoin) (s : Store)
      → answers.add_fails c.at ≡ no_fault
      → is_known existing o ≡ false
      → o ≡ c.at
      → IsOpenAt o (add_coin info answers existing c s)
  add_coin-IsOpenAt o c s f k e =
      let u = new_utxo info answers.now c in
      let (r, there, id, clean, added) = add_utxo-IsAdded u info.account_id s in
      rw e (
        rw (subst (λ p. is_known existing p ≡ false) e k, f)
          (r, sym (get_utxo_by_outpoint-find_at c.at _) ∙ there, (clean.0, clean.1, clean.2)))

  -- A coin on chain that is not known is open after the loop, whatever its row said before.
  pub add_coins-IsOpenAt :
      (o : Outpoint) (cs : List ChainCoin) (s : Store)
      → ((p : Outpoint) → answers.add_fails p ≡ no_fault)
      → IsValid s
      → is_known existing o ≡ false
      → (is_on_chain cs o ≡ true) ⊎ IsOpenAt o s
      → IsOpenAt o (add_coins info answers existing cs s)
  unfolding add_coins
  add_coins-IsOpenAt o [] s ff v k (inl h) = absurd (true-false (sym h))
  add_coins-IsOpenAt o [] s ff v k (inr h) = h
  add_coins-IsOpenAt o (c ∷ cs) s ff v k h = elim (Bool-cases (sits o c)) [
    | inl e ↦
        add_coins-IsOpenAt o cs (add_coin info answers existing c s) ff (add_coin-IsValid c s v) k
          (inr (add_coin-IsOpenAt o c s (ff c.at) k (sits_eq o c e)))
    | inr e ↦
        add_coins-IsOpenAt o cs (add_coin info answers existing c s) ff (add_coin-IsValid c s v) k
          (elim h [
            | inl g ↦ inl (rw e at g)
            | inr (r, there, opened) ↦
                inr (
                  r,
                  add_coin-others o c s v (λ g. absurd (true-false (sym g ∙ e))) ∙ there,
                  opened,
                )
          ])
  ]

apart :
    (o : Outpoint) (r q : UtxoRow)
    → is_at o r ≡ false
    → is_at o q ≡ true
    → is_at (outpoint_of_row r) q ≡ false
apart o r q h k = elim (Bool-cases (is_at (outpoint_of_row r) q)) [
  | inl e ↦ absurd (ground (arith, h, k, e))
  | inr e ↦ e
]

same_at :
    (o : Outpoint) (r q : UtxoRow)
    → is_at o r ≡ true
    → is_at o q ≡ true
    → is_at (outpoint_of_row r) q ≡ true
same_at o r q h k = ground (arith, h, k)

-- The row at an outpoint is marked as spent.
abbrev pub IsSpentAt : Outpoint → Store → Type 0
IsSpentAt o s = (r : UtxoRow) × (row_at o s ≡ some r) × (r.spending_status ≡ some spent)

module _ (info : AddressInfo) (answers : Answers) (coins : List ChainCoin) where
  abbrev settled : Outpoint → UtxoRow → UtxoRow
  settled p r =
      if is_at p r && in_account info.account_id r
      then record r {
        spent_at = some answers.now;
        spent_txid = some unknown_txid;
        spending_status = some spent;
      }
      else r

  settled-spent :
      (p : Outpoint) (r : UtxoRow)
      → r.spending_status ≡ some spent
      → (settled p r).spending_status ≡ some spent
  settled-spent p r h = elim (Bool-cases (is_at p r && in_account info.account_id r)) [
    | inl e ↦ rw e refl
    | inr e ↦ rw e h
  ]

  -- What one call of `markUTXOSpent` does to the row.
  mark_utxo_spent-at :
      (o p : Outpoint) (s : Store)
      → row_at o (mark_utxo_spent answers.now p unknown_txid info.account_id s)
        ≡ with_row (settled p) (row_at o s)
  unfolding mark_utxo_spent
  mark_utxo_spent-at o p s = find_at-update_where _ _ o s.rows (λ r. (refl, refl, refl))

  abbrev goes : UtxoRow → Bool
  goes r = is_gone info answers coins r && not (answers.mark_fails (outpoint_of_row r))

  untouched :
      (o : Outpoint) (r : UtxoRow) (found : Option UtxoRow)
      → is_at o r ≡ false
      → ((q : UtxoRow) → found ≡ some q → is_at o q ≡ true)
      → with_row (settled (outpoint_of_row r)) found ≡ found
  untouched o r none h k = refl
  untouched o r (some q) h k = rw (apart o r q h (k q refl)) refl

  -- A row that is not gone, or that is at another outpoint, leaves this one alone.
  mark_row-others :
      (o : Outpoint) (r : UtxoRow) (s : Store)
      → (is_at o r ≡ true → is_gone info answers coins r ≡ false)
      → row_at o (mark_row info answers coins r s) ≡ row_at o s
  mark_row-others o r s h = elim (Bool-cases (is_at o r)) [
    | inl e ↦ rw (h e) refl
    | inr e ↦ elim (Bool-cases (goes r)) [
      | inl g ↦ rw g (
          mark_utxo_spent-at o (outpoint_of_row r) s
          ∙ untouched o r (row_at o s) e (find_at-is_at o s.rows))
      | inr g ↦ rw g refl
    ]
  ]

  -- What is spent stays so.
  mark_row-spent :
      (o : Outpoint) (r : UtxoRow) (s : Store)
      → IsSpentAt o s
      → IsSpentAt o (mark_row info answers coins r s)
  mark_row-spent o r s (q, there, h) = elim (Bool-cases (goes r)) [
    | inl g ↦ rw g (
      settled (outpoint_of_row r) q,
      mark_utxo_spent-at o (outpoint_of_row r) s
          ∙ ap (with_row (settled (outpoint_of_row r))) there,
      settled-spent (outpoint_of_row r) q h,
    )
    | inr g ↦ rw g (q, there, h)
  ]

  -- A row that is gone is spent after its turn, if the call does not fail.
  mark_row-gone :
      (o : Outpoint) (r q : UtxoRow) (s : Store)
      → goes r ≡ true
      → is_at o r ≡ true
      → row_at o s ≡ some q
      → in_account info.account_id q ≡ true
      → IsSpentAt o (mark_row info answers coins r s)
  mark_row-gone o r q s g e there a = rw g (
    settled (outpoint_of_row r) q,
    mark_utxo_spent-at o (outpoint_of_row r) s ∙ ap (with_row (settled (outpoint_of_row r))) there,
    rw (same_at o r q e (find_at-is_at o s.rows q there), a) refl,
  )

  pub mark_gone-others :
      (o : Outpoint) (rs : List UtxoRow) (s : Store)
      → All (λ r. is_at o r ≡ true → is_gone info answers coins r ≡ false) rs
      → row_at o (mark_gone info answers coins rs s) ≡ row_at o s
  unfolding mark_gone
  mark_gone-others o [] s h = refl
  mark_gone-others o (r ∷ rs) s h =
      mark_gone-others o rs (mark_row info answers coins r s) h.1 ∙ mark_row-others o r s h.0

  mark_gone-stays :
      (o : Outpoint) (rs : List UtxoRow) (s : Store)
      → IsSpentAt o s
      → IsSpentAt o (mark_gone info answers coins rs s)
  unfolding mark_gone
  mark_gone-stays o [] s h = h
  mark_gone-stays o (r ∷ rs) s h =
      mark_gone-stays o rs (mark_row info answers coins r s) (mark_row-spent o r s h)

  pub mark_gone-IsSpentAt :
      (o : Outpoint) (rs : List UtxoRow) (s : Store) (q : UtxoRow)
      → ((p : Outpoint) → answers.mark_fails p ≡ false)
      → any (is_at o) rs ≡ true
      → All (λ r. is_at o r ≡ true → is_gone info answers coins r ≡ true) rs
      → row_at o s ≡ some q
      → in_account info.account_id q ≡ true
      → IsSpentAt o (mark_gone info answers coins rs s)
  unfolding mark_gone
  mark_gone-IsSpentAt o [] s q ff h g there a = absurd (true-false (sym h))
  mark_gone-IsSpentAt o (r ∷ rs) s q ff h g there a = elim (Bool-cases (is_at o r)) [
    | inl e ↦
        mark_gone-stays o rs (mark_row info answers coins r s)
          (mark_row-gone o r q s (rw (g.0 e, ff (outpoint_of_row r)) refl) e there a)
    | inr e ↦
        mark_gone-IsSpentAt o rs (mark_row info answers coins r s) q ff (rw e at h) g.1
          (mark_row-others o r s (λ f. absurd (true-false (sym f ∙ e))) ∙ there) a
  ]
