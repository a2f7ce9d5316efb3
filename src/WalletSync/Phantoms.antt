-- ===== src/WalletSync/Phantoms.antt =====
-- The coins that `resolvePendingTransactions` (src/services/sync/orchestration.ts) deletes.
use simply_sats.Prelude.{
  ℕ, ◌-◌, ◌≡◌, refl, sym, ap, ◌∙◌, Bool, true, false, not, ◌&&◌, ◌||◌, none, some, List, [], ◌∷◌,
  filter, filter-filter, any, ◌==◌, leb, if◌then◌else◌, arith,
}
use mathlib.Core.Path.{fun_ext}
use simply_sats.Store.Defs.{UtxoRow, Store, eq_column}
use simply_sats.Store.Upkeep.{delete_utxos_by_txid}
use simply_sats.Transactions.Defs.{TxRow, TxTables}
use simply_sats.Transactions.Keyed.{is_pending_of, any-filter, any-order_by}
use simply_sats.Transactions.Queries.{get_pending_transactions, order_by, by_created_asc}
use simply_sats.WalletSync.Resolving.{
  Details, details, not_found, unavailable, Verdict, mined, phantom, open_still, judge,
  settle_verdict, resolve_each, resolve_pending_transactions, stale_pending404_ms,
}

-- The API does not know the transaction, and it is old enough.
abbrev pub is_phantom_reply : ℕ → Details → TxRow → Bool
is_phantom_reply now (details h) r = false
is_phantom_reply now not_found r = leb stale_pending404_ms (now - r.created_at)
is_phantom_reply now unavailable r = false

-- A pending transaction of the account for which the database does not fail.
abbrev pub is_looked_up : ℕ → (ℕ → Bool) → TxRow → Bool
is_looked_up account fails r = is_pending_of account r && not (fails r.txid)

filter-eq :
    (p q : UtxoRow → Bool)
    → ((u : UtxoRow) → p u ≡ q u)
    → (us : List UtxoRow) → filter p us ≡ filter q us
filter-eq p q h us = ap (λ f. filter f us) (fun_ext h)

filter-true : (us : List UtxoRow) → filter (λ u. true) us ≡ us
filter-true [] = refl
filter-true (u ∷ us) = ap (◌∷◌ u) (filter-true us)

and_assoc : (a b c : Bool) → (a && (b && c)) ≡ ((a && b) && c)
and_assoc true b c = refl
and_assoc false b c = refl

module _ (now account : ℕ) (reply : ℕ → Details) (fails : ℕ → Bool) where
  abbrev outputs_of : ℕ → UtxoRow → Bool
  outputs_of txid u = u.txid == txid && eq_column u.account_id account

  is_phantom : Verdict → Bool
  is_phantom (mined h) = false
  is_phantom phantom = true
  is_phantom open_still = false

  is_phantom-judge :
      (d : Details) (r : TxRow) → is_phantom (judge now d r) ≡ is_phantom_reply now d r
  unfolding is_phantom judge
  is_phantom-judge (details none) r = refl
  is_phantom-judge (details (some h)) r = ground arith
  is_phantom-judge not_found r = ground arith
  is_phantom-judge unavailable r = refl

  coins-verdict :
      (txid : ℕ) (v : Verdict) (t : Store × TxTables)
      → (settle_verdict now (some account) txid v t).0.rows
        ≡ filter (λ u. not (is_phantom v && outputs_of txid u)) t.0.rows
  unfolding settle_verdict delete_utxos_by_txid is_phantom
  coins-verdict txid (mined h) (c, s) = sym (filter-true c.rows)
  coins-verdict txid phantom (c, s) = refl
  coins-verdict txid open_still (c, s) = sym (filter-true c.rows)

  -- One round of the loop deletes the coin.
  lost : TxRow → UtxoRow → Bool
  lost p u = not (fails p.txid) && (is_phantom_reply now (reply p.txid) p && outputs_of p.txid u)

  coins-round :
      (p : TxRow) (t : Store × TxTables) (failing : Bool)
      → fails p.txid ≡ failing
      → (if failing
          then t
          else settle_verdict now (some account) p.txid (judge now (reply p.txid) p) t).0.rows
        ≡ filter (λ u. not (lost p u)) t.0.rows
  unfolding lost
  coins-round p t true e = rw e (sym (filter-true t.0.rows))
  coins-round p t false e =
      rw (e, sym (is_phantom-judge (reply p.txid) p))
        (coins-verdict p.txid (judge now (reply p.txid) p) t)

  coins-each :
      (ps : List TxRow) (t : Store × TxTables)
      → (resolve_each now reply fails (some account) ps t).0.rows
        ≡ filter (λ u. not (any (λ p. lost p u) ps)) t.0.rows
  unfolding resolve_each
  coins-each [] t = sym (filter-true t.0.rows)
  coins-each (p ∷ ps) t =
      let t' =
        if fails p.txid
        then t
        else settle_verdict now (some account) p.txid (judge now (reply p.txid) p) t in
      coins-each ps t'
      ∙ (ap (filter (λ u. not (any (λ q. lost q u) ps))) (coins-round p t (fails p.txid) refl)
          ∙ (filter-filter (λ u. not (lost p u)) (λ u. not (any (λ q. lost q u) ps)) t.0.rows
              ∙ filter-eq (λ u. not (lost p u) && not (any (λ q. lost q u) ps))
                  (λ u. not (lost p u || any (λ q. lost q u) ps)) (λ u. ground arith) t.0.rows))

  -- An output of a phantom among the transactions looked up.
  abbrev pub is_phantom_coin : List TxRow → UtxoRow → Bool
  is_phantom_coin rows u =
      any
        (λ p.
          is_looked_up account fails p
          && (is_phantom_reply now (reply p.txid) p
              && (u.txid == p.txid && eq_column u.account_id account)))
        rows

  listed-lost :
      (rows : List TxRow) (u : UtxoRow)
      → any (λ p. lost p u) (order_by by_created_asc (filter (is_pending_of account) rows))
        ≡ is_phantom_coin rows u
  unfolding lost
  listed-lost rows u =
      any-order_by (λ p. lost p u) by_created_asc (filter (is_pending_of account) rows)
      ∙ (any-filter (is_pending_of account) (λ p. lost p u) rows
          ∙ ap (λ f. any f rows)
              (fun_ext (λ p.
                and_assoc (is_pending_of account p) (not (fails p.txid))
                  (is_phantom_reply now (reply p.txid) p && outputs_of p.txid u))))

  pub resolve_pending_transactions-is_phantom_coin :
      (t : Store × TxTables)
      → (resolve_pending_transactions now reply false fails (some account) t).0.rows
        ≡ filter (λ u. not (is_phantom_coin t.1.rows u)) t.0.rows
  unfolding resolve_pending_transactions get_pending_transactions
  resolve_pending_transactions-is_phantom_coin t =
      coins-each (order_by by_created_asc (filter (is_pending_of account) t.1.rows)) t
      ∙ filter-eq
          (λ u. not (
            any (λ p. lost p u)
              (order_by by_created_asc (filter (is_pending_of account) t.1.rows))))
          (λ u. not (is_phantom_coin t.1.rows u)) (λ u. ap not (listed-lost t.1.rows u)) t.0.rows
