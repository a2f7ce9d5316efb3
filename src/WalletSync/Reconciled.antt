-- ===== src/WalletSync/Reconciled.antt =====
-- The table after an address was synchronised.
use simply_sats.Prelude.{
  ◌≡◌, refl, sym, ap, ◌∙◌, Bool, true, false, not, ◌&&◌, ◌⊎◌, none, some, List, [], ◌∷◌, arith,
  ◌==◌, filter-filter, any, All, Bool-cases, inl, inr, ok, or_else, length, ltb_iff, ◌<◌,
}
use simply_sats.Types.{Outpoint}
use simply_sats.Store.Adding.{no_fault}
use simply_sats.Store.Defs.{UtxoRow, Store, is_at, in_account, is_spendable}
use simply_sats.Store.Queries.{get_spendable_utxos}
use simply_sats.Store.Adding.Laws.{IsValid}
use simply_sats.WalletSync.{
  ChainCoin, AddressInfo, Answers, SyncState, SyncResult, outpoint_of_row, is_known, is_on_chain,
  is_gone, is_of, existing_utxos, add_coins, mark_gone, pending_txids_or_none, is_doubtful,
  reconcile, sync_address, skipped,
}
use simply_sats.WalletSync.Table.{true-false, find_at-selected}
use simply_sats.WalletSync.Phases.{
  row_at, sits, sits_eq, IsOpenAt, IsSpentAt, add_coins-others, add_coins-IsOpenAt,
  mark_gone-others, mark_gone-IsSpentAt,
}

All-always : {A : Type 0} {P : A → Type 0} (xs : List A) → ((x : A) → P x) → All P xs
All-always [] h = tt
All-always (x ∷ xs) h = (h x, All-always xs h)

any-false : {A : Type 0} (p : A → Bool) (xs : List A) → any p xs ≡ false → All (λ x. p x ≡ false) xs
any-false p [] h = tt
any-false p (x ∷ xs) h = elim (Bool-cases (p x)) [
  | inl e ↦ absurd (true-false (rw e at h))
  | inr e ↦ (e, any-false p xs (rw e at h))
]

All-impossible :
    {A : Type 0} (p q : A → Bool) (xs : List A)
    → All (λ x. p x ≡ false) xs
    → All (λ x. p x ≡ true → q x ≡ true) xs
All-impossible p q [] h = tt
All-impossible p q (x ∷ xs) h = (λ e. absurd (true-false (sym e ∙ h.0)), All-impossible p q xs h.1)

All-impossible_not :
    {A : Type 0} (p q : A → Bool) (xs : List A)
    → All (λ x. p x ≡ false) xs
    → All (λ x. p x ≡ true → q x ≡ false) xs
All-impossible_not p q [] h = tt
All-impossible_not p q (x ∷ xs) h =
    (λ e. absurd (true-false (sym e ∙ h.0)), All-impossible_not p q xs h.1)

row_outpoint : (o : Outpoint) (r : UtxoRow) → is_at o r ≡ true → outpoint_of_row r ≡ o
row_outpoint o r e =
    let p : r.txid ≡ o.txid = ground (arith, e) in
    let q : r.vout ≡ o.vout = ground (arith, e) in λ i. record { txid = p i; vout = q i }

module _ (info : AddressInfo) (answers : Answers) (coins : List ChainCoin) where
  -- A row's fate depends on its outpoint only.
  abbrev goes_at : Outpoint → Bool
  goes_at o =
      not (is_on_chain coins o) && not (any (λ t. o.txid == t) (pending_txids_or_none info answers))

  is_gone-at :
      (o : Outpoint) (r : UtxoRow) → is_at o r ≡ true → is_gone info answers coins r ≡ goes_at o
  is_gone-at o r e = ap goes_at (row_outpoint o r e)

  existing-selected :
      (o : Outpoint) (s : Store)
      → IsValid s
      → is_known (existing_utxos info s) o ≡ true
      → (q : UtxoRow) × (row_at o s ≡ some q) × (in_account info.account_id q ≡ true)
  unfolding existing_utxos get_spendable_utxos
  existing-selected o s v h =
      let (q, there, p) =
        find_at-selected (λ r. (is_spendable r && in_account info.account_id r) && is_of info r) o
          s.rows v.unique
          (ap (any (is_at o)) (
              sym (
                filter-filter (λ r. is_spendable r && in_account info.account_id r) (is_of info)
                  s.rows))
            ∙ h) in
      (q, there, ground (arith, p))

  -- What becomes of the row at an outpoint. A coin on chain that is not among the address's spendable
  -- ones is open afterwards, and one of these that is neither on chain nor an output of a pending
  -- transaction is spent. Everything else stays as it was.
  abbrev pub IsReconciled : Store → Store → Outpoint → Type 0
  IsReconciled s s' o =
      let on_chain = is_on_chain coins o in
      let known = is_known (existing_utxos info s) o in
      let is_output_of_pending = any (λ t. o.txid == t) (pending_txids_or_none info answers) in
      (on_chain ≡ true → known ≡ false → IsOpenAt o s')
      × (on_chain ≡ false → known ≡ true → is_output_of_pending ≡ false → IsSpentAt o s')
      × (on_chain ≡ known → row_at o s' ≡ row_at o s)
      × (on_chain ≡ false → is_output_of_pending ≡ true → row_at o s' ≡ row_at o s)

  module _ (s : Store) (v : IsValid s) (o : Outpoint) where
    abbrev existing : List UtxoRow
    existing = existing_utxos info s

    abbrev done : Store
    done = mark_gone info answers coins existing (add_coins info answers existing coins s)

    -- The first loop does nothing here, for an outpoint not on chain or known.
    added-others :
        (is_on_chain coins o ≡ false) ⊎ (is_known existing o ≡ true)
        → row_at o (add_coins info answers existing coins s) ≡ row_at o s
    added-others (inl h) =
        add_coins-others info answers existing o coins s v
          (All-impossible (sits o) (λ c. is_known existing c.at) coins (any-false (sits o) coins h))
    added-others (inr h) =
        add_coins-others info answers existing o coins s v
          (All-always coins (λ c e. ap (is_known existing) (sym (sits_eq o c e)) ∙ h))

    -- Nor does the second, for an outpoint that does not go or is not known.
    marked-others :
        (goes_at o ≡ false) ⊎ (is_known existing o ≡ false)
        → (t : Store) → row_at o (mark_gone info answers coins existing t) ≡ row_at o t
    marked-others (inl h) t =
        mark_gone-others info answers coins o existing t
          (All-always existing (λ r e. is_gone-at o r e ∙ h))
    marked-others (inr h) t = mark_gone-others info answers coins o existing t (
        All-impossible_not (is_at o) (is_gone info answers coins) existing
          (any-false (is_at o) existing h))

    stays : is_on_chain coins o ≡ true → goes_at o ≡ false
    stays on = rw on refl

    kept : any (λ t. o.txid == t) (pending_txids_or_none info answers) ≡ true → goes_at o ≡ false
    kept p = ground (arith, p)

    gone :
        is_on_chain coins o ≡ false
        → any (λ t. o.txid == t) (pending_txids_or_none info answers) ≡ false
        → goes_at o ≡ true
    gone off p = rw (off, p) refl

    both-IsReconciled :
        ((p : Outpoint) → answers.add_fails p ≡ no_fault)
        → ((p : Outpoint) → answers.mark_fails p ≡ false)
        → IsReconciled s done o
    both-IsReconciled fa fm = (
      (λ on off.
          let (r, there, opened) =
            add_coins-IsOpenAt info answers existing o coins s fa v off (inl on) in
          (r, marked-others (inl (stays on)) _ ∙ there, opened)),
      (λ off on p.
          let (q, there, a) = existing-selected o s v on in
          mark_gone-IsSpentAt info answers coins o existing _ q fm on
            (All-always existing (λ r e. is_gone-at o r e ∙ gone off p))
            (added-others (inl off) ∙ there) a),
      (λ same. elim (Bool-cases (is_on_chain coins o)) [
        | inl on ↦ marked-others (inl (stays on)) _ ∙ added-others (inr (sym same ∙ on))
        | inr off ↦ marked-others (inr (sym same ∙ off)) _ ∙ added-others (inl off)
      ]),
      (λ off p. marked-others (inl (kept p)) _ ∙ added-others (inl off)),
    )

-- On a table with distinct keys, let the API answer with the coins on chain, let the queries and writes
-- of coins succeed, and let it not be that the chain has no coin and no history of the address while the
-- address has spendable coins in the table. (A query for the pending txids that fails counts as none.)
-- Then the synchronisation returns, and every outpoint's row is as the chain says: the coin is open where the chain has it and the address did not
-- have it as spendable, whatever its row said before, spent where the address had it and the chain does not,
-- unless a pending transaction made it, and untouched otherwise.
pub sync_address-IsReconciled :
    (info : AddressInfo) (answers : Answers) (coins : List ChainCoin) (st : SyncState)
    → IsValid st.store
    → answers.utxos ≡ some coins
    → answers.spendable_fails ≡ false
    → is_doubtful info answers coins (existing_utxos info st.store) ≡ false
    → ((p : Outpoint) → answers.add_fails p ≡ no_fault)
    → ((p : Outpoint) → answers.mark_fails p ≡ false)
    → (r : SyncResult) × (st' : SyncState) × (sync_address info answers st ≡ ok (r, st'))
      × ((o : Outpoint) → IsReconciled info answers coins st.store st'.store o)
unfolding sync_address reconcile
sync_address-IsReconciled info answers coins st v u f d fa fm =
    let (r, st') = reconcile info answers coins st in
    (r, st', rw (u, f, d) refl, λ o. both-IsReconciled info answers coins st.store v o fa fm)

-- Where the API does not answer, or where it knows of no coins and of no history and the address has
-- coins in the table, nothing is changed, and the result is left out of sums.
pub sync_address-skipped :
    (info : AddressInfo) (answers : Answers) (st : SyncState)
    → answers.spendable_fails ≡ false
    → (answers.utxos ≡ none)
      ⊎ ((answers.utxos ≡ some [])
          × (or_else answers.history 0 ≡ 0)
          × (0 < length (existing_utxos info st.store)))
    → sync_address info answers st ≡ ok (skipped, st)
unfolding sync_address
sync_address-skipped info answers st f (inl h) = rw h refl
sync_address-skipped info answers st f (inr (u, h, n)) =
    rw (u, f, h, (ltb_iff 0 (length (existing_utxos info st.store))).1 n) refl
