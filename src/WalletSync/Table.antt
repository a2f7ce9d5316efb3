-- ===== src/WalletSync/Table.antt =====
-- What an update does to the row at an outpoint.
use simply_sats.Prelude.{
  ◌≡◌, refl, sym, subst, ◌∙◌, Bool, true, false, Option, none, some, List, [], ◌∷◌, arith,
  if◌then◌else◌, filter, any, All, Bool-cases, inl, inr,
}
use simply_sats.Types.{Outpoint}
use simply_sats.Store.Defs.{UtxoRow, is_at, update_where}
use simply_sats.Store.Adding.Laws.{find_at, IsUnique, KeepsKey, is_at-keeps}
use simply_sats.Store.Adding.Appending.{All-mono}
use simply_sats.WalletSync.{outpoint_of_row}

abbrev pub with_row : (UtxoRow → UtxoRow) → Option UtxoRow → Option UtxoRow
with_row f none = none
with_row f (some r) = some (f r)

pub find_at-update_where :
    (p : UtxoRow → Bool) (f : UtxoRow → UtxoRow) (o : Outpoint) (rs : List UtxoRow)
    → KeepsKey f
    → find_at o (update_where p f rs) ≡ with_row (λ r. if p r then f r else r) (find_at o rs)
find_at-update_where p f o [] k = refl
find_at-update_where p f o (r ∷ rs) k = elim (Bool-cases (p r)) [
  | inl b ↦ ground (arith, is_at-keeps f k o r, find_at-update_where p f o rs k, b)
  | inr b ↦ ground (arith, find_at-update_where p f o rs k, b)
]

some_eq : {q r : UtxoRow} → some q ≡ some r → q ≡ r
some_eq h = cc

-- What a row found at an outpoint says of it.
pub find_at-is_at :
    (o : Outpoint) (rs : List UtxoRow) (r : UtxoRow) → find_at o rs ≡ some r → is_at o r ≡ true
find_at-is_at o [] r h = absurd (ground (arith, h))
find_at-is_at o (q ∷ rs) r h = elim (Bool-cases (is_at o q)) [
  | inl e ↦ subst (λ x. is_at o x ≡ true) (some_eq (rw e at h)) e
  | inr e ↦ find_at-is_at o rs r (rw e at h)
]

any-filter_none :
    {A : Type 0} (p q : A → Bool) (xs : List A)
    → All (λ x. p x ≡ false) xs
    → any p (filter q xs) ≡ false
any-filter_none p q [] h = refl
any-filter_none p q (x ∷ xs) h = elim (Bool-cases (q x)) [
  | inl e ↦ rw (e, h.0) (any-filter_none p q xs h.1)
  | inr e ↦ rw e (any-filter_none p q xs h.1)
]

pub true-false : true ≡ false → ⊥
true-false h = ground arith

same_place :
    (o : Outpoint) (r q : UtxoRow)
    → is_at o r ≡ true
    → is_at (outpoint_of_row r) q ≡ false
    → is_at o q ≡ false
same_place o r q e h = ground (arith, e, h)

rest_selected :
    (p : UtxoRow → Bool) (o : Outpoint) (r : UtxoRow) (rs : List UtxoRow)
    → is_at o r ≡ false
    → any (is_at o) (filter p (r ∷ rs)) ≡ true
    → any (is_at o) (filter p rs) ≡ true
rest_selected p o r rs e h = elim (Bool-cases (p r)) [ inl f ↦ rw (f, e) at h | inr f ↦ rw f at h ]

-- In a table with distinct outpoints, a row among the selected ones is the row at its outpoint.
pub find_at-selected :
    (p : UtxoRow → Bool) (o : Outpoint) (rs : List UtxoRow)
    → IsUnique rs
    → any (is_at o) (filter p rs) ≡ true
    → (r : UtxoRow) × (find_at o rs ≡ some r) × (p r ≡ true)
find_at-selected p o [] u h = absurd (ground (arith, h))
find_at-selected p o (r ∷ rs) u h = elim (Bool-cases (is_at o r)) [
  | inl e ↦ elim (Bool-cases (p r)) [
    | inl f ↦ (r, rw e refl, f)
    | inr f ↦
        let apart = All-mono _ (λ q. is_at o q ≡ false) rs (λ q g. same_place o r q e g.0) u.0 in
        absurd (true-false (sym (rw f at h) ∙ any-filter_none (is_at o) p rs apart))
  ]
  | inr e ↦
      let (q, there, g) = find_at-selected p o rs u.1 (rest_selected p o r rs e h) in
      (q, rw e there, g)
]
