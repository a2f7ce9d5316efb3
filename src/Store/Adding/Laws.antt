-- ===== src/Store/Adding/Laws.antt =====
-- What `addUTXO` does to the table: one row for each outpoint, the coin fresh, all else as it was.
use simply_sats.Prelude.{
  ℕ, ◌<◌, ◌≡◌, refl, sym, ◌∙◌, ◌≢◌, inl, inr, Bool, true, false, ◌&&◌, Option, none, some, List, [],
  ◌∷◌, arith, ◌==◌, if◌then◌else◌, filter, All, Bool-cases,
}
use simply_sats.Types.{Outpoint}
use simply_sats.Store.Defs.{UtxoRow, Store, unspent, is_at, in_account, update_where}
use simply_sats.Store.Queries.{first, get_utxo_by_outpoint}
use simply_sats.Store.Adding.{NewUtxo, found_again}

-- The first row at an outpoint.
abbrev pub find_at : Outpoint → List UtxoRow → Option UtxoRow
find_at o [] = none
find_at o (r ∷ rs) = if is_at o r then some r else find_at o rs

first-filter :
    (o : Outpoint) (rs : List UtxoRow)
    → first (filter (λ r. is_at o r && in_account none r) rs) ≡ find_at o rs
first-filter o [] = refl
first-filter o (r ∷ rs) = ground (arith, first-filter o rs)

pub get_utxo_by_outpoint-find_at :
    (o : Outpoint) (s : Store) → get_utxo_by_outpoint o none s ≡ find_at o s.rows
unfolding get_utxo_by_outpoint
get_utxo_by_outpoint-find_at o s = first-filter o s.rows

-- No two rows share an outpoint or an id.
abbrev pub IsUnique : List UtxoRow → Type 0
IsUnique [] = Unit
IsUnique (r ∷ rs) =
    All
      (λ (q : UtxoRow). (is_at (record { txid = r.txid; vout = r.vout }) q ≡ false) × (q.id ≢ r.id))
      rs
    × IsUnique rs

-- The keys of the table hold, and no id has been given that is still to come.
pub record IsValid (s : Store) : Type 0 where
  pub unique : IsUnique s.rows
  pub fresh : All (λ r. r.id < s.next_id) s.rows

-- A change of a row that leaves its key alone.
abbrev pub KeepsKey : (UtxoRow → UtxoRow) → Type 0
KeepsKey f = (r : UtxoRow) → ((f r).id ≡ r.id) × ((f r).txid ≡ r.txid) × ((f r).vout ≡ r.vout)

pub found_again-KeepsKey : (ex : UtxoRow) (u : NewUtxo) (a : ℕ) → KeepsKey (found_again ex u a)
unfolding found_again
found_again-KeepsKey ex u a r = (ground arith, ground arith, ground arith)

pub found_again-fresh :
    (ex : UtxoRow) (u : NewUtxo) (a : ℕ) (r : UtxoRow)
    → let q = found_again ex u a r in
      (q.spendable ≡ u.spendable)
      × (q.spent_at ≡ none)
      × (q.spending_status ≡ some unspent)
      × (q.pending_spending_txid ≡ none)
      × (q.account_id ≡ some a)
unfolding found_again
found_again-fresh ex u a r = (ground arith, ground arith, ground arith, ground arith, ground arith)

module _ (f : UtxoRow → UtxoRow) (keeps : KeepsKey f) where
  pub is_at-keeps : (o : Outpoint) (r : UtxoRow) → is_at o (f r) ≡ is_at o r
  is_at-keeps o r = let (_, e, d) = keeps r in rw (e, d)

  is_at-update :
      (o : Outpoint) (b : Bool) (r : UtxoRow) → is_at o (if b then f r else r) ≡ is_at o r
  is_at-update o true r = is_at-keeps o r
  is_at-update o false r = refl

  -- The row that is found is the one that changes.
  pub find_at-update_self :
      (o : Outpoint) (ex : UtxoRow) (rs : List UtxoRow)
      → find_at o rs ≡ some ex
      → find_at o (update_where (λ r. r.id == ex.id) f rs) ≡ some (f ex)
  find_at-update_self o ex [] h = ground arith
  find_at-update_self o ex (r ∷ rs) h = elim (Bool-cases (is_at o r)) [
    | inl e ↦ ground (arith, is_at-keeps o r)
    | inr e ↦
        ground (arith, is_at-update o (r.id == ex.id) r, find_at-update_self o ex rs (rw e at h))
  ]

  pub find_at-update_ne :
      (o : Outpoint) (p : UtxoRow → Bool) (rs : List UtxoRow)
      → All (λ r. p r ≡ true → is_at o r ≡ false) rs
      → find_at o (update_where p f rs) ≡ find_at o rs
  find_at-update_ne o p [] h = refl
  find_at-update_ne o p (r ∷ rs) h = elim (Bool-cases (p r)) [
    | inl e ↦ ground (arith, is_at-keeps o r, h.0 e, find_at-update_ne o p rs h.1)
    | inr e ↦ ground (arith, find_at-update_ne o p rs h.1)
  ]

  All-update {κ} :
      (P : UtxoRow → Type κ) (p : UtxoRow → Bool) (rs : List UtxoRow)
      → ((r : UtxoRow) → P r → P (f r))
      → All P rs
      → All P (update_where p f rs)
  All-update P p [] h a = tt
  All-update P p (r ∷ rs) h a = elim (Bool-cases (p r)) [
    | inl e ↦ rw e (h r a.0, All-update P p rs h a.1)
    | inr e ↦ rw e (a.0, All-update P p rs h a.1)
  ]

  -- Any update that keeps the keys keeps them distinct.
  update_where-IsUnique :
      (p : UtxoRow → Bool) (rs : List UtxoRow) → IsUnique rs → IsUnique (update_where p f rs)
  update_where-IsUnique p [] h = tt
  update_where-IsUnique p (r ∷ rs) h =
      let (i, e, d) = keeps r in
      let rest =
        All-update
          (λ (q : UtxoRow).
            (is_at (record { txid = r.txid; vout = r.vout }) q ≡ false) × (q.id ≢ r.id))
          p rs (λ q g. (is_at-keeps _ q ∙ g.0, λ eq. g.1 (sym (keeps q).0 ∙ eq))) h.0 in
      elim (Bool-cases (p r)) [
        | inl t ↦ rw (t, i, e, d) (rest, update_where-IsUnique p rs h.1)
        | inr t ↦ rw t (rest, update_where-IsUnique p rs h.1)
      ]

  pub update_where-IsValid :
      (p : UtxoRow → Bool) (s : Store)
      → IsValid s
      → IsValid (record s { rows = update_where p f s.rows })
  update_where-IsValid p s v = record {
    unique = update_where-IsUnique p s.rows v.unique;
    fresh =
        All-update (λ r. r.id < s.next_id) p s.rows (λ r h. let e = (keeps r).0 in rw e h) v.fresh;
  }
