-- ===== src/Tests/Rows.antt =====
-- The table of coins.
use simply_sats.Prelude.{◌+◌, ◌≡◌, refl, inr, none, some, [], ◌∷◌, ok, arith}
use simply_sats.Store.Defs.{UtxoRow}
use simply_sats.Store.Queries.{get_spendable_utxos, get_balance_from_db, get_utxo_by_outpoint}
use simply_sats.Store.Pending.{
  mark_utxos_pending_spend, confirm_utxos_spent, rollback_pending_spend,
}
use simply_sats.Store.Pending.Marking.{get_spendable_utxos-mark, rollback-mark}
use simply_sats.Store.Pending.Settling.{get_balance_from_db-confirm}
use simply_sats.Store.Adding.{add_utxo, no_fault}
use simply_sats.Store.Adding.Laws.{IsValid}
use simply_sats.Store.Adding.Rules.{add_utxo-IsAdded, IsClean, IsAdded}
use simply_sats.Tests.Data.{two_rows, first_out, second_out, again, row}

get_spendable_utxos-mark_example :
    ((mark_utxos_pending_spend 500 none (first_out ∷ []) 77 two_rows).0 ≡ ok tt)
    × (get_spendable_utxos
          (some 1)
          (mark_utxos_pending_spend 500 none (first_out ∷ []) 77 two_rows).1
        ≡ row 2 12 300 ∷ [])
unfolding get_spendable_utxos
get_spendable_utxos-mark_example =
    get_spendable_utxos-mark 500 (first_out ∷ []) 77 (some 1) two_rows

rollback-mark_example :
    rollback_pending_spend none
      (first_out ∷ [])
      (mark_utxos_pending_spend 500 none (first_out ∷ []) 77 two_rows).1
    ≡ (ok tt, two_rows)
rollback-mark_example =
    rollback-mark 500 (first_out ∷ []) 77 two_rows
      ((λ h. inr (refl, refl, refl)), ((λ h. inr (refl, refl, refl)), tt))

get_balance_from_db-confirm_example :
    300
      + get_balance_from_db none none (confirm_utxos_spent 500 none (second_out ∷ []) 77 two_rows).1
    ≡ get_balance_from_db none none two_rows
get_balance_from_db-confirm_example =
    get_balance_from_db-confirm 500 (second_out ∷ []) 77 none none two_rows

pub two_rows-IsValid : IsValid two_rows
two_rows-IsValid = record {
  unique = (((refl, λ e. ground (arith, e)), tt), (tt, tt));
  fresh = (omega arith, (omega arith, tt));
}

add_utxo-IsAdded_example :
    (r : UtxoRow) × (get_utxo_by_outpoint first_out none (add_utxo no_fault again none two_rows).1
      ≡ some r)
    × ((add_utxo no_fault again none two_rows).0 ≡ ok r.id)
    × IsClean again r
    × IsAdded (some (row 1 11 1000)) again none r
unfolding get_utxo_by_outpoint
add_utxo-IsAdded_example = add_utxo-IsAdded again none two_rows
