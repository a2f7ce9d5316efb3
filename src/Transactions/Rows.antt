-- ===== src/Transactions/Rows.antt =====
-- The statements of a call on the rows of the table.
use simply_sats.Prelude.{
  ℕ, zero, suc, ◌≡◌, refl, ap, Bool, true, false, Option, none, some, or_else, List, [], ◌∷◌, ◌++◌,
  map, filter, All, if◌then◌else◌, Result, ok, err, arith,
}
use simply_sats.Store.Defs.{DbError}
use simply_sats.Transactions.Defs.{TxRow, TxTables, Statement, is_tx, run, insert_label}
use simply_sats.Transactions.Writes.{label_statements, with_txid}
use simply_sats.Transactions.Queries.{first_row}

-- What holds after each statement holds after the call, whether the database fails or not.
pub run-Keeps {ℓ} :
    (P : TxTables → Type ℓ) (faults : Option ℕ) (fs : List Statement) (s : TxTables)
    → All (λ f. (t : TxTables) → P t → P (f t)) fs
    → P s
    → P (run faults fs s).1
unfolding run
run-Keeps P none [] s keep p = p
run-Keeps P (some zero) [] s keep p = p
run-Keeps P (some (suc n)) [] s keep p = p
run-Keeps P none (f ∷ fs) s keep p = run-Keeps P none fs (f s) keep.1 (keep.0 s p)
run-Keeps P (some zero) (f ∷ fs) s keep p = p
run-Keeps P (some (suc n)) (f ∷ fs) s keep p = run-Keeps P (some n) fs (f s) keep.1 (keep.0 s p)

-- The row of a transaction in an account.
abbrev pub find : ℕ → ℕ → List TxRow → Option TxRow
find txid account rows = first_row (filter (is_tx txid account) rows)

-- The first row of the two ways that a filter goes.
find_here :
    (here : Bool) (q r : TxRow) (rows qs : List TxRow)
    → first_row (if here then q ∷ rows else rows) ≡ some r
    → (first_row rows ≡ some r → first_row qs ≡ some r)
    → first_row (if here then q ∷ qs else qs) ≡ some r
find_here true q r rows qs h ih = h
find_here false q r rows qs h ih = ih h

find_mapped :
    (here : Bool) (g : TxRow → TxRow) (q r : TxRow) (rows qs : List TxRow)
    → first_row (if here then q ∷ rows else rows) ≡ some r
    → (first_row rows ≡ some r → first_row qs ≡ some (g r))
    → first_row (if here then g q ∷ qs else qs) ≡ some (g r)
find_mapped true g q r rows qs h ih = ap (λ o. some (g (or_else o r))) h
find_mapped false g q r rows qs h ih = ih h

pub find-append :
    (txid account : ℕ) (r : TxRow) (rows qs : List TxRow)
    → find txid account rows ≡ some r
    → find txid account (rows ++ qs) ≡ some r
find-append txid account r [] qs h = absurd (ground arith)
find-append txid account r (q ∷ rows) qs h =
    let ih = find-append txid account r rows qs in
    find_here (is_tx txid account q) q r (filter (is_tx txid account) rows)
      (filter (is_tx txid account) (rows ++ qs)) h ih

-- An update that leaves the key alone.
pub find-map :
    (txid account : ℕ) (g : TxRow → TxRow)
    → ((q : TxRow) → is_tx txid account (g q) ≡ is_tx txid account q)
    → (rows : List TxRow) (r : TxRow) → find txid account rows ≡ some r
    → find txid account (map g rows) ≡ some (g r)
find-map txid account g same [] r h = absurd (ground arith)
find-map txid account g same (q ∷ rows) r h =
    let ih = find-map txid account g same rows r in
    rw (same q) (
      find_mapped (is_tx txid account q) g q r (filter (is_tx txid account) rows)
        (filter (is_tx txid account) (map g rows)) h ih)

-- That each statement of a list keeps what `P` says.
abbrev pub AllKeep {ℓ} : (TxTables → Type ℓ) → List Statement → Type ℓ
AllKeep P fs = All (λ f. (t : TxTables) → P t → P (f t)) fs

pub All-append {ℓ κ} :
    {A : Type ℓ} (P : A → Type κ) (xs ys : List A) → All P xs → All P ys → All P (xs ++ ys)
All-append P [] ys h k = k
All-append P (x ∷ xs) ys h k = (h.0, All-append P xs ys h.1 k)

pub label_statements-Keep {ℓ} :
    (P : TxTables → Type ℓ) (txid account : ℕ)
    → ((label : ℕ) (t : TxTables) → P t → P (insert_label txid account label t))
    → (labels : List ℕ) → AllKeep P (label_statements txid account labels)
label_statements-Keep P txid account keep [] = tt
label_statements-Keep P txid account keep (l ∷ ls) =
    (keep l, label_statements-Keep P txid account keep ls)

pub with_txid-tables :
    (txid : ℕ) (r : Result (Unit {0}) DbError × TxTables) → (with_txid txid r).1 ≡ r.1
with_txid-tables txid (ok t, s) = refl
with_txid-tables txid (err e, s) = refl
