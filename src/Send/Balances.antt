-- ===== src/Send/Balances.antt =====
-- What marking, confirming and adding do to the value of the spendable coins.
use simply_sats.Prelude.{
  ℕ, ◌+◌, ◌≡◌, refl, sym, ◌∙◌, Bool, true, not, ◌&&◌, none, some, List, [], ◌∷◌, map, filter,
  sum_by-split, arith, if◌then◌else◌,
}
use simply_sats.Types.{Outpoint}
use simply_sats.Store.Defs.{UtxoRow, Store, is_at, is_spendable, in_account}
use simply_sats.Store.Queries.{get_spendable_utxos, get_utxo_by_outpoint}
use simply_sats.Store.Pending.{
  settle, pend, can_pend, mark_utxos_pending_spend, confirm_utxos_spent,
}
use simply_sats.Store.Pending.Rows.{is_hit, row_after, execute_each-rows, pend_row, settle_row}
use simply_sats.Store.Pending.Marking.{rows_value, get_spendable_utxos-mark}
use simply_sats.Store.Pending.Settling.{get_spendable_utxos-confirm}
use simply_sats.Store.Adding.{NewUtxo, new_row, append_row, place, add_utxo, no_fault}
use simply_sats.Store.Adding.Laws.{find_at, get_utxo_by_outpoint-find_at}

abbrev pub spendable_value : ℕ → Store → ℕ
spendable_value account s = rows_value (get_spendable_utxos (some account) s)

filter-twice : (p : UtxoRow → Bool) (rs : List UtxoRow) → filter p (filter p rs) ≡ filter p rs
filter-twice p [] = refl
filter-twice p (r ∷ rs) = ground (arith, filter-twice p rs)

-- Marked and then confirmed, coins are gone as if confirmed at once.
pub spendable-spent :
    (now t t' account : ℕ) (os : List Outpoint) (s : Store)
    → spendable_value account
          (confirm_utxos_spent now none os t' (mark_utxos_pending_spend now none os t s).1).1
        + rows_value (filter (is_hit os) (get_spendable_utxos (some account) s))
      ≡ spendable_value account s
spendable-spent now t t' account os s =
    rw
      (
        get_spendable_utxos-confirm now os t' (some account)
            (mark_utxos_pending_spend now none os t s).1,
        (get_spendable_utxos-mark now os t (some account) s).1,
        filter-twice (λ r. not (is_hit os r)) (get_spendable_utxos (some account) s),
      )
      (omega (
        arith,
        sum_by-split (λ (r : UtxoRow). r.satoshis) (is_hit os)
            (get_spendable_utxos (some account) s),
      ))

find_at-map :
    (g : UtxoRow → UtxoRow) (o : Outpoint) (rs : List UtxoRow)
    → ((r : UtxoRow) → is_at o (g r) ≡ is_at o r)
    → find_at o rs ≡ none
    → find_at o (map g rs) ≡ none
find_at-map g o [] h e = refl
find_at-map g o (r ∷ rs) h e = ground (arith, h r, find_at-map g o rs h)

is_at-pended :
    (t now : ℕ) (os : List Outpoint) (o : Outpoint) (r : UtxoRow)
    → is_at o (row_after can_pend (pend t now) os r) ≡ is_at o r
is_at-pended t now os o r = rw (pend_row t now os r) (ground arith)

is_at-settled :
    (t now : ℕ) (os : List Outpoint) (o : Outpoint) (r : UtxoRow)
    → is_at o (row_after is_at (settle t now) os r) ≡ is_at o r
is_at-settled t now os o r = rw (settle_row t now os r) (ground arith)

-- Spending coins brings no row to an outpoint.
pub absent-spent :
    (now t t' : ℕ) (os : List Outpoint) (o : Outpoint) (s : Store)
    → get_utxo_by_outpoint o none s ≡ none
    → get_utxo_by_outpoint o none
        (confirm_utxos_spent now none os t' (mark_utxos_pending_spend now none os t s).1).1
      ≡ none
unfolding confirm_utxos_spent mark_utxos_pending_spend
absent-spent now t t' os o s h =
    get_utxo_by_outpoint-find_at o
      (confirm_utxos_spent now none os t' (mark_utxos_pending_spend now none os t s).1).1
    ∙ rw
        (
          execute_each-rows can_pend (pend t now) os s.rows,
          execute_each-rows is_at (settle t' now) os
              (map (row_after can_pend (pend t now) os) s.rows),
        )
        (find_at-map (row_after is_at (settle t' now) os) o _ (is_at-settled t' now os o) (
          find_at-map (row_after can_pend (pend t now) os) o s.rows (is_at-pended t now os o)
            (sym (get_utxo_by_outpoint-find_at o s) ∙ h)))

value-append_row :
    (p : UtxoRow → Bool) (rs : List UtxoRow) (r : UtxoRow)
    → rows_value (filter p (append_row rs r))
      ≡ rows_value (filter p rs) + (if p r then r.satoshis else 0)
value-append_row p [] r = ground arith
value-append_row p (q ∷ qs) r = ground (arith, value-append_row p qs r)

pub add_utxo-value :
    (u : NewUtxo) (account : ℕ) (s : Store)
    → get_utxo_by_outpoint u.at none s ≡ none
    → u.spendable ≡ true
    → spendable_value account (add_utxo no_fault u (some account) s).1
      ≡ spendable_value account s + u.satoshis
unfolding add_utxo place get_spendable_utxos
add_utxo-value u account s h e =
    rw
      (
        h,
        value-append_row (λ r. is_spendable r && in_account (some account) r) s.rows
            (new_row u account s.next_id),
      )
      (ground arith)
