-- ===== src/Store/Pending/Marking.antt =====
-- Marking coins as pending, and taking the mark back.
use mathlib.Core.List.{map-map}
use simply_sats.Prelude.{
  ℕ, ◌≡◌, sym, ◌∙◌, ◌⊎◌, true, not, ◌&&◌, Option, none, some, List, arith, filter, filter-map,
  filter-filter, map-eq_self, All, sum_by, ok, take, length, ◌<◌, err,
}
use simply_sats.Types.{Outpoint}
use simply_sats.Store.Defs.{UtxoRow, Store, unspent, spent, query_failed, is_spendable, in_account}
use simply_sats.Store.Queries.{get_spendable_utxos}
use simply_sats.Store.Pending.{
  execute_each, pend, unpend, can_pend, can_unpend, mark_utxos_pending_spend,
  rollback_pending_spend,
}
use simply_sats.Store.Pending.Rows.{
  is_hit, row_after, execute_each-ok, execute_each-rows, execute_each-faults, pend_row, unpend_row,
}

abbrev pub rows_value : List UtxoRow → ℕ
rows_value rs = sum_by (λ r. r.satoshis) rs

pend_keeps :
    (account : Option ℕ) (t now : ℕ) (os : List Outpoint) (r : UtxoRow)
    → let g = row_after can_pend (pend t now) os in
      let q = λ (r : UtxoRow). (is_spendable r && in_account account r) && not (is_hit os r) in
      ((is_spendable (g r) && in_account account (g r)) ≡ q r) × (q r ≡ true → g r ≡ r)
pend_keeps account t now os r =
    (ground (arith, pend_row t now os r), λ e. ground (arith, pend_row t now os r))

-- When no statement fails, marking takes exactly the marked coins off the spendable ones: those
-- that remain are the old ones at no marked outpoint, unchanged and in order.
pub get_spendable_utxos-mark :
    (now : ℕ) (os : List Outpoint) (t : ℕ) (account : Option ℕ) (s : Store)
    → ((mark_utxos_pending_spend now none os t s).0 ≡ ok tt)
      × (get_spendable_utxos account (mark_utxos_pending_spend now none os t s).1
          ≡ filter (λ r. not (is_hit os r)) (get_spendable_utxos account s))
unfolding mark_utxos_pending_spend get_spendable_utxos
get_spendable_utxos-mark now os t account s = (
  execute_each-ok can_pend (pend t now) os s.rows,
  rw (execute_each-rows can_pend (pend t now) os s.rows) (
      filter-map _ _ _ (pend_keeps account t now os) s.rows
      ∙ sym (
          filter-filter (λ r. is_spendable r && in_account account r) (λ r. not (is_hit os r))
            s.rows)),
)

-- The coin is either spent, or unspent with nothing left from an earlier mark.
abbrev pub IsClear : UtxoRow → Type 0
IsClear r =
    (r.spending_status ≡ some spent)
    ⊎ ((r.spending_status ≡ some unspent)
        × (r.pending_spending_txid ≡ none)
        × (r.pending_since ≡ none))

restore_row :
    (t now : ℕ) (os : List Outpoint) (r : UtxoRow)
    → (is_hit os r ≡ true → IsClear r)
    → row_after can_unpend unpend os (row_after can_pend (pend t now) os r) ≡ r
restore_row t now os r clear =
    rw (pend_row t now os r) (ground (arith, unpend_row os r, unpend_row os (pend t now r)))

-- If no marked coin was pending before, rolling the mark back restores the store, with no trace.
pub rollback-mark :
    (now : ℕ) (os : List Outpoint) (t : ℕ) (s : Store)
    → All (λ r. is_hit os r ≡ true → IsClear r) s.rows
    → rollback_pending_spend none os (mark_utxos_pending_spend now none os t s).1 ≡ (ok tt, s)
unfolding rollback_pending_spend mark_utxos_pending_spend
rollback-mark now os t s clear = λ i. (
  execute_each-ok can_unpend unpend os (execute_each can_pend (pend t now) none os s.rows).1 i,
  record s { rows = restored i },
)
  where
    restored :
        (execute_each can_unpend unpend none os
          (execute_each can_pend (pend t now) none os s.rows).1).1
        ≡ s.rows
    restored = rw (execute_each-rows can_pend (pend t now) os s.rows) (
        execute_each-rows can_unpend unpend os _
        ∙ map-map _ _ s.rows
        ∙ map-eq_self _ (restore_row t now os) s.rows clear)

-- When a statement fails, the marking fails as a whole, and the outpoints before it stay marked.
pub mark_utxos_pending_spend-faults :
    (now n : ℕ) (os : List Outpoint) (t : ℕ) (s : Store)
    → n < length os
    → mark_utxos_pending_spend now (some n) os t s
      ≡ (err query_failed, (mark_utxos_pending_spend now none (take n os) t s).1)
unfolding mark_utxos_pending_spend
mark_utxos_pending_spend-faults now n os t s h =
    rw (execute_each-faults can_pend (pend t now) n os s.rows h)
