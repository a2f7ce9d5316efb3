-- ===== src/Store/Adding/Appending.antt =====
-- A row appended to the table.
use simply_sats.Prelude.{
  ◌<◌, ◌≡◌, ◌≢◌, inl, inr, true, false, none, some, List, [], ◌∷◌, arith, All, Bool-cases,
}
use simply_sats.Types.{Outpoint}
use simply_sats.Store.Defs.{UtxoRow, is_at}
use simply_sats.Store.Adding.{append_row}
use simply_sats.Store.Adding.Laws.{find_at, IsUnique}

pub find_at-none :
    (o : Outpoint) (rs : List UtxoRow) → find_at o rs ≡ none → All (λ q. is_at o q ≡ false) rs
find_at-none o [] h = tt
find_at-none o (r ∷ rs) h = elim (Bool-cases (is_at o r)) [
  | inl e ↦ absurd (ground arith)
  | inr e ↦ (e, find_at-none o rs (rw e at h))
]

pub find_at-append_new :
    (o : Outpoint) (rs : List UtxoRow) (r : UtxoRow)
    → find_at o rs ≡ none
    → is_at o r ≡ true
    → find_at o (append_row rs r) ≡ some r
find_at-append_new o [] r h e = rw e
find_at-append_new o (q ∷ qs) r h e = ground (arith, find_at-append_new o qs r)

pub find_at-append_ne :
    (o : Outpoint) (rs : List UtxoRow) (r : UtxoRow)
    → is_at o r ≡ false
    → find_at o (append_row rs r) ≡ find_at o rs
find_at-append_ne o [] r e = rw e
find_at-append_ne o (q ∷ qs) r e = ground (arith, find_at-append_ne o qs r e)

pub All-append_row {κ} :
    (P : UtxoRow → Type κ) (rs : List UtxoRow) (r : UtxoRow)
    → All P rs
    → P r
    → All P (append_row rs r)
All-append_row P [] r a p = (p, tt)
All-append_row P (q ∷ qs) r a p = (a.0, All-append_row P qs r a.1 p)

pub All-mono {κ} :
    (P Q : UtxoRow → Type κ) (rs : List UtxoRow) → ((r : UtxoRow) → P r → Q r) → All P rs → All Q rs
All-mono P Q [] f a = tt
All-mono P Q (r ∷ rs) f a = (f r a.0, All-mono P Q rs f a.1)

pub append_row-IsUnique :
    (rs : List UtxoRow) (r : UtxoRow)
    → IsUnique rs
    → All (λ q. is_at (record { txid = r.txid; vout = r.vout }) q ≡ false) rs
    → All (λ q. q.id < r.id) rs
    → IsUnique (append_row rs r)
append_row-IsUnique [] r u p q = (tt, tt)
append_row-IsUnique (x ∷ xs) r u p q = (
  All-append_row
      (λ (q : UtxoRow). (is_at (record { txid = x.txid; vout = x.vout }) q ≡ false) × (q.id ≢ x.id))
      xs r u.0 (ground (arith, p.0), omega arith),
  append_row-IsUnique xs r u.1 p.1 q.1,
)
