-- ===== src/WalletSync/Resolved.antt =====
-- The tables after `resolvePendingTransactions` (src/services/sync/orchestration.ts).
use simply_sats.Prelude.{
  ℕ, ◌-◌, ◌≡◌, Bool, true, not, ◌&&◌, none, some, List, [], ◌∷◌, filter, any, All, ltb, leb,
  if◌then◌else◌,
}
use simply_sats.Store.Defs.{Store}
use simply_sats.Transactions.Defs.{TxRow, confirmed, failed, is_tx, or_null}
use simply_sats.Transactions.Keyed.{is_pending_of}
use simply_sats.Transactions.Queries.{order_by, by_created_asc}
use simply_sats.WalletSync.Resolving.{
  Details, details, not_found, unavailable, Verdict, mined, phantom, open_still, judge,
  stale_pending404_ms,
}

-- What a reply makes of a pending transaction.
abbrev pub resolved_row : ℕ → Details → TxRow → TxRow
resolved_row now (details none) r = r
resolved_row now (details (some h)) r =
    if ltb 0 h
    then record r { status = confirmed; confirmed_at = some now; block_height = some h }
    else r
resolved_row now not_found r =
    if leb stale_pending404_ms (now - r.created_at)
    then record r { status = failed; confirmed_at = none; block_height = none }
    else r
resolved_row now unavailable r = r

module _ (now account : ℕ) (reply : ℕ → Details) (fails : ℕ → Bool) where
  verdict : TxRow → Verdict
  verdict r = judge now (reply r.txid) r

  put : Verdict → TxRow → TxRow
  put (mined h) r = record r {
    status = confirmed;
    confirmed_at = some now;
    block_height = or_null (some h);
  }
  put phantom r = record r { status = failed; confirmed_at = none; block_height = none }
  put open_still r = r

  -- One round of the loop, on a row.
  step : TxRow → TxRow → TxRow
  step p r = if is_tx p.txid account r && not (fails p.txid) then put (verdict p) r else r

  after : List TxRow → TxRow → TxRow
  after [] r = r
  after (p ∷ ps) r = after ps (step p r)

  -- The transactions of `ps` under the key of `r` are `r`.
  Match : TxRow → List TxRow → Type 0
  Match r ps = All (λ p. is_tx p.txid account r ≡ true → p ≡ r) ps

  abbrev found : TxRow → List TxRow → Bool
  found r ps = any (λ p. is_tx p.txid account r) ps

  -- The transactions that the loop goes through.
  listed : List TxRow → List TxRow
  listed rows = order_by by_created_asc (filter (is_pending_of account) rows)
