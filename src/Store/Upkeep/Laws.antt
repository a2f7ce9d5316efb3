-- ===== src/Store/Upkeep/Laws.antt =====
-- Freezing, repairing and deleting rows.
use mathlib.Core.List.{map-map}
use simply_sats.Prelude.{
  ℕ, ◌≡◌, refl, sym, ◌∙◌, true, false, not, ◌&&◌, Bool, Option, none, some, List, [], ◌∷◌, map,
  filter, arith, length, filter-filter, filter-map_agree, if◌then◌else◌, Bool-cases, inl, inr,
}
use simply_sats.Types.{Outpoint}
use simply_sats.Store.Defs.{UtxoRow, Store, is_at, is_spendable, in_account}
use simply_sats.Store.Queries.{get_spendable_utxos}
use simply_sats.Store.Upkeep.{toggle_utxo_frozen, repair_utxos, needs_repair}

abbrev mend : Option ℕ → UtxoRow → UtxoRow
mend account r = if needs_repair account r then record r { spendable = true } else r

abbrev freeze_at : Outpoint → UtxoRow → UtxoRow
freeze_at o r =
    if is_at o r && in_account none r then record r { spendable = false; frozen = some true } else r

abbrev spendable_here : UtxoRow → Bool
spendable_here r = is_spendable r && in_account none r

mend-freeze_at :
    (o : Outpoint) (account : Option ℕ) (r : UtxoRow)
    → (spendable_here (mend account (freeze_at o r))
        ≡ (spendable_here (mend account r) && not (is_at o (mend account r))))
      × ((spendable_here (mend account r) && not (is_at o (mend account r))) ≡ true
          → mend account (freeze_at o r) ≡ mend account r)
mend-freeze_at o account r = elim (Bool-cases (is_at o r)) [
  | inl e ↦ rw e (ground arith, λ h. ground arith)
  | inr e ↦ rw e (ground arith, λ h. refl)
]

abbrev repaired : Option ℕ → List UtxoRow → List UtxoRow
repaired account rs = map (mend account) rs

-- Freezing a coin takes it, and no other, off the spendable ones, and a repair afterwards does not
-- bring it back: together they leave the coins at other outpoints that the repair alone leaves.
repair-freeze :
    (o : Outpoint) (account : Option ℕ) (s : Store)
    → get_spendable_utxos none (repair_utxos account (toggle_utxo_frozen o true none s)).1
      ≡ filter (λ r. not (is_at o r)) (get_spendable_utxos none (repair_utxos account s).1)
unfolding get_spendable_utxos repair_utxos toggle_utxo_frozen
repair-freeze o account s = rw (map-map (mend account) (freeze_at o) s.rows) (
    filter-map_agree _ _ _ _ (mend-freeze_at o account) s.rows
    ∙ sym (filter-filter spendable_here (λ r. not (is_at o r)) (map (mend account) s.rows)))

repaired-idempotent :
    (account : Option ℕ) (rs : List UtxoRow)
    → (length (filter (needs_repair account) (repaired account rs)) ≡ 0)
      × (repaired account (repaired account rs) ≡ repaired account rs)
repaired-idempotent account [] = (refl, refl)
repaired-idempotent account (r ∷ rs) = ground (arith, repaired-idempotent account rs)

-- A second repair finds no row to repair, and changes none.
repair_utxos-idempotent :
    (account : Option ℕ) (s : Store)
    → repair_utxos account (repair_utxos account s).1 ≡ (0, (repair_utxos account s).1)
unfolding repair_utxos
repair_utxos-idempotent account s =
    let (none_left, same) = repaired-idempotent account s.rows in
    λ i. (none_left i, record s { rows = same i })
