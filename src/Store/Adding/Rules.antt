-- ===== src/Store/Adding/Rules.antt =====
-- The rules of `addUTXO`, on the whole table.
use simply_sats.Prelude.{
  ℕ, suc, ◌<◌, ◌≡◌, refl, sym, ◌∙◌, ap, ◌≢◌, ◌⊎◌, ◌↔◌, inl, inr, true, false, Option, none, some,
  List, [], ◌∷◌, arith, ◌==◌, All, Bool-cases, ok, subst, ==_iff, or_else,
}
use simply_sats.Types.{Outpoint}
use simply_sats.Store.Defs.{UtxoRow, Store, unspent, basket_derived, is_at}
use simply_sats.Store.Queries.{get_utxo_by_outpoint}
use simply_sats.Store.Adding.{
  NewUtxo, found_again, resolve_account, new_row, place, place_unverified, AddFault, no_fault,
  write_fails, verify_fails, add_utxo, address_confirmed,
}
use simply_sats.Store.Adding.Laws.{
  find_at, get_utxo_by_outpoint-find_at, IsUnique, IsValid, found_again-KeepsKey, found_again-fresh,
  find_at-update_self, find_at-update_ne, update_where-IsValid,
}
use simply_sats.Store.Adding.Appending.{
  find_at-none, find_at-append_new, find_at-append_ne, All-append_row, All-mono,
  append_row-IsUnique,
}

place-IsValid :
    (found : Option UtxoRow) (u : NewUtxo) (account : Option ℕ) (s : Store)
    → find_at u.at s.rows ≡ found
    → IsValid s
    → IsValid (place found u account s).1
unfolding place
place-IsValid (some ex) u account s h v =
    update_where-IsValid (found_again ex u (resolve_account ex u account))
      (found_again-KeepsKey ex u (resolve_account ex u account)) (λ r. r.id == ex.id) s v
place-IsValid none u account s h v = record {
  unique = append_row-IsUnique s.rows _ v.unique (find_at-none u.at s.rows h) v.fresh;
  fresh =
      All-append_row (λ r. r.id < suc s.next_id) s.rows _
        (All-mono (λ r. r.id < s.next_id) (λ r. r.id < suc s.next_id) s.rows (λ r h. omega arith)
          v.fresh)
        (omega arith);
}

unverified-IsValid :
    (found : Option UtxoRow) (u : NewUtxo) (account : Option ℕ) (s : Store)
    → find_at u.at s.rows ≡ found
    → IsValid s
    → IsValid (place_unverified found u account s).1
unfolding place_unverified
unverified-IsValid (some ex) u account s h v = place-IsValid (some ex) u account s h v
unverified-IsValid none u account s h v = place-IsValid none (record u { tags = [] }) account s h v

-- The table keeps one row for each outpoint and one for each id, whether the call succeeds or not.
pub add_utxo-IsValid :
    (faults : AddFault) (u : NewUtxo) (account : Option ℕ) (s : Store)
    → IsValid s
    → IsValid (add_utxo faults u account s).1
unfolding add_utxo
add_utxo-IsValid write_fails u account s v = v
add_utxo-IsValid verify_fails u account s v =
    unverified-IsValid (get_utxo_by_outpoint u.at none s) u account s
      (sym (get_utxo_by_outpoint-find_at u.at s)) v
add_utxo-IsValid no_fault u account s v =
    place-IsValid (get_utxo_by_outpoint u.at none s) u account s
      (sym (get_utxo_by_outpoint-find_at u.at s)) v

-- What a call promises of the coin's row, given the row that was there.
abbrev pub IsAdded : Option UtxoRow → NewUtxo → Option ℕ → UtxoRow → Type 0
IsAdded none u account r = r ≡ new_row u (elim account [ none ↦ 1 | some a ↦ a ]) r.id
IsAdded (some ex) u account r =
    (r.id ≡ ex.id)
    × (r.satoshis ≡ ex.satoshis)
    × ((r.basket ≡ basket_derived) ↔ ((ex.basket ≡ basket_derived) ⊎ (u.basket ≡ basket_derived)))
    × ((a : ℕ) → ex.account_id ≡ some a → address_confirmed ex u ≡ true → r.account_id ≡ some a)

-- The coin is there to spend as the call says, and nothing of an earlier spend is left on it.
abbrev pub IsClean : NewUtxo → UtxoRow → Type 0
IsClean u r =
    (r.spendable ≡ u.spendable)
    × (r.spent_at ≡ none)
    × (r.spending_status ≡ some unspent)
    × (r.pending_spending_txid ≡ none)

found_again-IsAdded :
    (ex : UtxoRow) (u : NewUtxo) (account : Option ℕ)
    → IsAdded (some ex) u account (found_again ex u (resolve_account ex u account) ex)
unfolding found_again resolve_account
found_again-IsAdded ex u account =
    (ground arith, ground arith, (λ h. ground arith, λ h. ground arith), λ a h c. ground arith)

place-IsAdded :
    (found : Option UtxoRow) (u : NewUtxo) (account : Option ℕ) (s : Store)
    → find_at u.at s.rows ≡ found
    → (r : UtxoRow) × (find_at u.at (place found u account s).1.rows ≡ some r)
      × ((place found u account s).0 ≡ r.id)
      × IsClean u r
      × IsAdded found u account r
unfolding place
place-IsAdded (some ex) u account s h =
    let a : ℕ = resolve_account ex u account in
    let clean = found_again-fresh ex u a ex in
    (
      found_again ex u a ex,
      find_at-update_self (found_again ex u a) (found_again-KeepsKey ex u a) u.at ex s.rows h,
      sym (found_again-KeepsKey ex u a ex).0,
      (clean.0, clean.1, clean.2, clean.3),
      found_again-IsAdded ex u account,
    )
place-IsAdded none u (some a) s h = (
  new_row u a s.next_id,
  find_at-append_new u.at s.rows (new_row u a s.next_id) h (ground arith),
  refl,
  (refl, refl, refl, refl),
  refl,
)
place-IsAdded none u none s h = (
  new_row u 1 s.next_id,
  find_at-append_new u.at s.rows (new_row u 1 s.next_id) h (ground arith),
  refl,
  (refl, refl, refl, refl),
  refl,
)

-- After a call that the database carries out, the outpoint has a row, whose id the call returns:
-- spendable as the call says, in whatever basket, unspent and not pending. A new outpoint gets a new row for the given account
-- or account 1. A known one keeps its row and value; it is in the basket `derived` exactly if it
-- was or is added as such; and if its stored address is the incoming one, it keeps its account.
pub add_utxo-IsAdded :
    (u : NewUtxo) (account : Option ℕ) (s : Store)
    → (r : UtxoRow) × (get_utxo_by_outpoint u.at none (add_utxo no_fault u account s).1 ≡ some r)
      × ((add_utxo no_fault u account s).0 ≡ ok r.id)
      × IsClean u r
      × IsAdded (get_utxo_by_outpoint u.at none s) u account r
unfolding add_utxo
add_utxo-IsAdded u account s =
    let found = get_utxo_by_outpoint u.at none s in
    let (r, there, id, clean, added) =
      place-IsAdded found u account s (sym (get_utxo_by_outpoint-find_at u.at s)) in
    (
      r,
      get_utxo_by_outpoint-find_at u.at (add_utxo no_fault u account s).1 ∙ there,
      ap ok id,
      clean,
      added,
    )

some_eq : {q r : UtxoRow} → some q ≡ some r → q ≡ r
some_eq h = cc

All-find {κ} :
    (P : UtxoRow → Type κ) (o : Outpoint) (rs : List UtxoRow) (r : UtxoRow)
    → find_at o rs ≡ some r
    → All P rs
    → P r
All-find P o [] r h a = absurd (ground arith)
All-find P o (q ∷ qs) r h a = elim (Bool-cases (is_at o q)) [
  | inl e ↦ subst P (some_eq (rw e at h)) a.0
  | inr e ↦ All-find P o qs r (rw e at h) a.1
]

-- Two outpoints that one row stands at are the same.
is_at-apart :
    (o o' : Outpoint) (r : UtxoRow)
    → ¬ ((o'.txid ≡ o.txid) × (o'.vout ≡ o.vout))
    → is_at o r ≡ true
    → is_at o' r ≡ false
is_at-apart o o' r ne e = elim (Bool-cases (is_at o' r)) [
  | inl e' ↦ absurd (ne (ground arith, ground arith))
  | inr e' ↦ e'
]

id_of_found :
    (o : Outpoint) (rs : List UtxoRow) (ex : UtxoRow)
    → IsUnique rs
    → find_at o rs ≡ some ex
    → All (λ r. (r.id == ex.id) ≡ true → is_at o r ≡ true) rs
id_of_found o [] ex u h = tt
id_of_found o (r ∷ rs) ex u h = elim (Bool-cases (is_at o r)) [
  | inl e ↦
      let same : r ≡ ex = some_eq (rw e at h) in
      (
        λ _. e,
        All-mono _ _ rs
            (λ q d eq. absurd (d.1 ((==_iff _ _).0 eq ∙ sym (ap (λ (x : UtxoRow). x.id) same))))
            u.0,
      )
  | inr e ↦ (
    λ eq.
        let apart =
          All-find
            (λ q. (is_at (record { txid = r.txid; vout = r.vout }) q ≡ false) × (q.id ≢ r.id)) o rs
            ex (rw e at h) u.0 in
        absurd (apart.1 (sym ((==_iff _ _).0 eq))),
    id_of_found o rs ex u.1 (rw e at h),
  )
]

place-others :
    (found : Option UtxoRow) (u : NewUtxo) (account : Option ℕ) (s : Store) (o : Outpoint)
    → find_at u.at s.rows ≡ found
    → IsValid s
    → ¬ ((o.txid ≡ u.at.txid) × (o.vout ≡ u.at.vout))
    → find_at o (place found u account s).1.rows ≡ find_at o s.rows
unfolding place
place-others (some ex) u account s o h v ne =
    find_at-update_ne _ (found_again-KeepsKey ex u (resolve_account ex u account)) o
      (λ r. r.id == ex.id) s.rows
      (All-mono _ _ s.rows (λ r g eq. is_at-apart u.at o r ne (g eq))
        (id_of_found u.at s.rows ex v.unique h))
place-others none u account s o h v ne =
    find_at-append_ne o s.rows row (is_at-apart u.at o row ne (ground arith))
  where
    row : UtxoRow
    row = new_row u (or_else account 1) s.next_id

unverified-others :
    (found : Option UtxoRow) (u : NewUtxo) (account : Option ℕ) (s : Store) (o : Outpoint)
    → find_at u.at s.rows ≡ found
    → IsValid s
    → ¬ ((o.txid ≡ u.at.txid) × (o.vout ≡ u.at.vout))
    → find_at o (place_unverified found u account s).1.rows ≡ find_at o s.rows
unfolding place_unverified
unverified-others (some ex) u account s o h v ne = place-others (some ex) u account s o h v ne
unverified-others none u account s o h v ne =
    place-others none (record u { tags = [] }) account s o h v ne

-- In a table with distinct keys, a call touches no other outpoint.
pub add_utxo-others :
    (faults : AddFault) (u : NewUtxo) (account : Option ℕ) (s : Store) (o : Outpoint)
    → IsValid s
    → ¬ ((o.txid ≡ u.at.txid) × (o.vout ≡ u.at.vout))
    → get_utxo_by_outpoint o none (add_utxo faults u account s).1 ≡ get_utxo_by_outpoint o none s
unfolding add_utxo
add_utxo-others write_fails u account s o v ne = refl
add_utxo-others verify_fails u account s o v ne =
    let found = get_utxo_by_outpoint u.at none s in
    get_utxo_by_outpoint-find_at o (place_unverified found u account s).1
    ∙ unverified-others found u account s o (sym (get_utxo_by_outpoint-find_at u.at s)) v ne
    ∙ sym (get_utxo_by_outpoint-find_at o s)
add_utxo-others no_fault u account s o v ne =
    let found = get_utxo_by_outpoint u.at none s in
    get_utxo_by_outpoint-find_at o (place found u account s).1
    ∙ place-others found u account s o (sym (get_utxo_by_outpoint-find_at u.at s)) v ne
    ∙ sym (get_utxo_by_outpoint-find_at o s)
