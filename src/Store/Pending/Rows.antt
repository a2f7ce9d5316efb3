-- ===== src/Store/Pending/Rows.antt =====
-- The loops of the pending-spend functions, seen from one row: what all the statements of a loop
-- together do to it.
use mathlib.Core.List.{map-map, map-id}
use simply_sats.Prelude.{
  ℕ, zero, suc, ◌<◌, ◌≡◌, refl, sym, ◌∙◌, Bool, ◌&&◌, Option, none, some, List, [], ◌∷◌, map, arith,
  any, ◌==◌, if◌then◌else◌, length, take, ok, err,
}
use simply_sats.Types.{Outpoint}
use simply_sats.Store.Defs.{UtxoRow, query_failed, is_at, is_unspent, is_pending, update_where}
use simply_sats.Store.Pending.{execute_each, pend, can_pend, settle, unpend, can_unpend}

-- Whether one of the outpoints is that of the row.
abbrev pub hits : List Outpoint → ℕ → ℕ → Bool
hits os txid vout = any (λ o. txid == o.txid && vout == o.vout) os

abbrev pub is_hit : List Outpoint → UtxoRow → Bool
is_hit os r = hits os r.txid r.vout

abbrev pub row_after :
    (Outpoint → UtxoRow → Bool) → (UtxoRow → UtxoRow) → List Outpoint → UtxoRow → UtxoRow
row_after p f [] r = r
row_after p f (o ∷ os) r = row_after p f os (if p o r then f r else r)

module _ (p : Outpoint → UtxoRow → Bool) (f : UtxoRow → UtxoRow) where
  pub execute_each-ok :
      (os : List Outpoint) (rs : List UtxoRow) → (execute_each p f none os rs).0 ≡ ok tt
  unfolding execute_each
  execute_each-ok [] rs = refl
  execute_each-ok (o ∷ os) rs = execute_each-ok os (update_where (p o) f rs)

  pub execute_each-rows :
      (os : List Outpoint) (rs : List UtxoRow)
      → (execute_each p f none os rs).1 ≡ map (row_after p f os) rs
  unfolding execute_each
  execute_each-rows [] rs = sym (map-id rs)
  execute_each-rows (o ∷ os) rs =
      execute_each-rows os (update_where (p o) f rs) ∙ map-map (row_after p f os) _ rs

  -- A loop that throws has done the statements before the one that threw.
  pub execute_each-faults :
      (n : ℕ) (os : List Outpoint) (rs : List UtxoRow)
      → n < length os
      → execute_each p f (some n) os rs
        ≡ (err query_failed, (execute_each p f none (take n os) rs).1)
  unfolding execute_each
  execute_each-faults n [] rs h = absurd (omega arith)
  execute_each-faults zero (o ∷ os) rs h = refl
  execute_each-faults (suc n) (o ∷ os) rs h =
      execute_each-faults n os (update_where (p o) f rs) (omega arith)

pub pend_row :
    (t now : ℕ) (os : List Outpoint) (r : UtxoRow)
    → row_after can_pend (pend t now) os r
      ≡ (if is_unspent r.spending_status && is_hit os r then pend t now r else r)
pend_row t now [] r = ground arith
pend_row t now (o ∷ os) r = ground (arith, pend_row t now os r, pend_row t now os (pend t now r))

pub settle_row :
    (t now : ℕ) (os : List Outpoint) (r : UtxoRow)
    → row_after is_at (settle t now) os r ≡ (if is_hit os r then settle t now r else r)
settle_row t now [] r = refl
settle_row t now (o ∷ os) r =
    ground (arith, settle_row t now os r, settle_row t now os (settle t now r))

pub unpend_row :
    (os : List Outpoint) (r : UtxoRow)
    → row_after can_unpend unpend os r
      ≡ (if is_pending r.spending_status && is_hit os r then unpend r else r)
unpend_row [] r = ground arith
unpend_row (o ∷ os) r = ground (arith, unpend_row os r, unpend_row os (unpend r))

-- A loop that reports success has run every statement.
pub execute_each-ok_all :
    (p : Outpoint → UtxoRow → Bool) (f : UtxoRow → UtxoRow) (faults : Option ℕ) (os : List Outpoint)
    (rs : List UtxoRow)
    → (execute_each p f faults os rs).0 ≡ ok tt
    → execute_each p f faults os rs ≡ execute_each p f none os rs
unfolding execute_each
execute_each-ok_all p f none os rs h = refl
execute_each-ok_all p f (some n) [] rs h = refl
execute_each-ok_all p f (some zero) (o ∷ os) rs h = cc
execute_each-ok_all p f (some (suc n)) (o ∷ os) rs h =
    execute_each-ok_all p f (some n) os (update_where (p o) f rs) h
