-- ===== src/Store/Pending/Settling.antt =====
-- Confirming a spend: the coins leave the wallet for good.
use mathlib.Core.List.{map-map}
use mathlib.Core.Path.{fun_ext}
use simply_sats.Prelude.{
  ℕ, ◌+◌, ◌≡◌, sym, ◌∙◌, ap, map, true, not, ◌&&◌, Option, none, List, arith, filter, filter-map,
  filter-filter, sum_by, sum_by-split, ok,
}
use simply_sats.Types.{Outpoint}
use simply_sats.Store.Defs.{UtxoRow, Store, is_at, is_spendable, in_account}
use simply_sats.Store.Queries.{get_spendable_utxos, get_balance_from_db, if_named}
use simply_sats.Store.Pending.{
  execute_each, settle, unpend, can_unpend, confirm_utxos_spent, rollback_pending_spend,
}
use simply_sats.Store.Pending.Rows.{
  is_hit, row_after, execute_each-ok, execute_each-rows, settle_row, unpend_row,
}

settle_keeps :
    (account : Option ℕ) (t now : ℕ) (os : List Outpoint) (r : UtxoRow)
    → let g = row_after is_at (settle t now) os in
      let q = λ (r : UtxoRow). (is_spendable r && in_account account r) && not (is_hit os r) in
      ((is_spendable (g r) && in_account account (g r)) ≡ q r) × (q r ≡ true → g r ≡ r)
settle_keeps account t now os r =
    (ground (arith, settle_row t now os r), λ e. ground (arith, settle_row t now os r))

-- Confirming a spend takes the spent coins, and no other, off the spendable ones, whatever state
-- they were in before.
pub get_spendable_utxos-confirm :
    (now : ℕ) (os : List Outpoint) (t : ℕ) (account : Option ℕ) (s : Store)
    → get_spendable_utxos account (confirm_utxos_spent now none os t s).1
      ≡ filter (λ r. not (is_hit os r)) (get_spendable_utxos account s)
unfolding confirm_utxos_spent get_spendable_utxos
get_spendable_utxos-confirm now os t account s =
    rw (execute_each-rows is_at (settle t now) os s.rows) (
      filter-map _ _ _ (settle_keeps account t now os) s.rows
      ∙ sym (
          filter-filter (λ r. is_spendable r && in_account account r) (λ r. not (is_hit os r))
            s.rows))

settle_keeps_named :
    (basket account : Option ℕ) (t now : ℕ) (os : List Outpoint) (r : UtxoRow)
    → let g = row_after is_at (settle t now) os in
      let p = λ (r : UtxoRow). is_spendable r && if_named basket r && in_account account r in
      let q = λ (r : UtxoRow). p r && not (is_hit os r) in (p (g r) ≡ q r) × (q r ≡ true → g r ≡ r)
settle_keeps_named basket account t now os r =
    (ground (arith, settle_row t now os r), λ e. ground (arith, settle_row t now os r))

-- The balance of any basket and account falls by exactly the spendable coins among those spent.
pub get_balance_from_db-confirm :
    (now : ℕ) (os : List Outpoint) (t : ℕ) (basket account : Option ℕ) (s : Store)
    → sum_by
          (λ r. r.satoshis)
          (filter
            (is_hit os)
            (filter (λ r. is_spendable r && if_named basket r && in_account account r) s.rows))
        + get_balance_from_db basket account (confirm_utxos_spent now none os t s).1
      ≡ get_balance_from_db basket account s
unfolding confirm_utxos_spent get_balance_from_db
get_balance_from_db-confirm now os t basket account s =
    rw
      (
        execute_each-rows is_at (settle t now) os s.rows,
        filter-map _ _ _ (settle_keeps_named basket account t now os) s.rows,
        ← filter-filter (λ r. is_spendable r && if_named basket r && in_account account r)
            (λ r. not (is_hit os r)) s.rows,
      )
      (sum_by-split (λ (r : UtxoRow). r.satoshis) (is_hit os) _)

stay_settled :
    (t now : ℕ) (os : List Outpoint) (r : UtxoRow)
    → row_after can_unpend unpend os (row_after is_at (settle t now) os r)
      ≡ row_after is_at (settle t now) os r
stay_settled t now os r =
    rw (settle_row t now os r) (ground (arith, unpend_row os r, unpend_row os (settle t now r)))

-- A rollback never reopens a coin whose spend was confirmed.
rollback-confirm :
    (now : ℕ) (os : List Outpoint) (t : ℕ) (s : Store)
    → rollback_pending_spend none os (confirm_utxos_spent now none os t s).1
      ≡ (ok tt, (confirm_utxos_spent now none os t s).1)
unfolding rollback_pending_spend confirm_utxos_spent
rollback-confirm now os t s = λ i. (
  execute_each-ok can_unpend unpend os (execute_each is_at (settle t now) none os s.rows).1 i,
  record s { rows = unchanged i },
)
  where
    unchanged :
        (execute_each can_unpend unpend none os
          (execute_each is_at (settle t now) none os s.rows).1).1
        ≡ (execute_each is_at (settle t now) none os s.rows).1
    unchanged = rw (execute_each-rows is_at (settle t now) os s.rows) (
        execute_each-rows can_unpend unpend os _
        ∙ map-map _ _ s.rows
        ∙ ap (λ g. map g s.rows) (fun_ext (stay_settled t now os)))
