-- ===== src/Locks/Table/Marked.antt =====
-- Locks that are marked as unlocked, or whose block is filled in.
use simply_sats.Prelude.{
  ℕ, ◌≤◌, ◌≡◌, refl, sym, ap, ◌∙◌, Bool, true, false, not, ◌&&◌, Option, some, List, [], ◌∷◌, ◌++◌,
  map, filter, All, ◌==◌, leb, leb_iff, if◌then◌else◌, Bool-cases, inl, inr, arith,
}
use simply_sats.Types.{Outpoint}
use simply_sats.Coins.{insert_by_value, sort_utxos_by_value}
use simply_sats.Coins.Sorting.{IsAscending, All-weaken, sort_utxos_by_value-IsAscending}
use simply_sats.Store.Defs.{UtxoRow, Store, is_null}
use simply_sats.Locks.Table.{
  LockRow, LockTable, LockView, join_utxos, lock_in_account, get_locks, locks_outpoint,
  mark_lock_unlocked_by_txid,
}

module _ {A : Type 0} (value : A → ℕ) (p : A → Bool) where
  insert-least :
      (x : A) (ys : List A) → All (λ y. value x ≤ value y) ys → insert_by_value value x ys ≡ x ∷ ys
  unfolding insert_by_value
  insert-least x [] h = refl
  insert-least x (y ∷ ys) h = rw ((leb_iff (value x) (value y)).1 h.0)

  All-filtered {κ} : (P : A → Type κ) (ys : List A) → All P ys → All P (filter p ys)
  All-filtered P [] h = tt
  All-filtered P (y ∷ ys) h = elim (Bool-cases (p y)) [
    | inl e ↦ rw e (h.0, All-filtered P ys h.1)
    | inr e ↦ rw e (All-filtered P ys h.1)
  ]

  -- Behind a smaller value, whether the two pass or not.
  behind :
      (x y : A) (ys : List A) (px py : Bool)
      → leb (value x) (value y) ≡ false
      → filter p (insert_by_value value x ys)
        ≡ (if px then insert_by_value value x (filter p ys) else filter p ys)
      → (if py
          then y ∷ filter p (insert_by_value value x ys)
          else filter p (insert_by_value value x ys))
        ≡ (if px
            then insert_by_value value x (if py then y ∷ filter p ys else filter p ys)
            else if py
            then y ∷ filter p ys
            else filter p ys)
  unfolding insert_by_value
  behind x y ys true true e ih = rw e (ap (◌∷◌ y) ih)
  behind x y ys true false e ih = ih
  behind x y ys false true e ih = ap (◌∷◌ y) ih
  behind x y ys false false e ih = ih

  filter-insert :
      (x : A) (ys : List A)
      → IsAscending value ys
      → filter p (insert_by_value value x ys)
        ≡ (if p x then insert_by_value value x (filter p ys) else filter p ys)
  unfolding insert_by_value
  filter-insert x [] h = refl
  filter-insert x (y ∷ ys) h = elim (Bool-cases (leb (value x) (value y))) [
    | inl e ↦
        let least = insert-least x (filter p (y ∷ ys)) (
          All-filtered (λ z. value x ≤ value z) (y ∷ ys)
            (
              (leb_iff (value x) (value y)).0 e,
              All-weaken value x y ys ((leb_iff (value x) (value y)).0 e) h.0,
            )) in
        rw e (ap (λ zs. if p x then zs else filter p (y ∷ ys)) (sym least))
    | inr e ↦ rw e (behind x y ys (p x) (p y) e (filter-insert x ys h.1))
  ]

  -- Sorting keeps the order of what a filter lets through.
  pub filter-sort :
      (xs : List A)
      → filter p (sort_utxos_by_value value xs) ≡ sort_utxos_by_value value (filter p xs)
  unfolding sort_utxos_by_value
  filter-sort [] = refl
  filter-sort (x ∷ xs) = elim (Bool-cases (p x)) [
    | inl e ↦
        filter-insert x (sort_utxos_by_value value xs) (sort_utxos_by_value-IsAscending value xs)
        ∙ rw e (ap (insert_by_value value x) (filter-sort xs))
    | inr e ↦
        filter-insert x (sort_utxos_by_value value xs) (sort_utxos_by_value-IsAscending value xs)
        ∙ rw e (filter-sort xs)
  ]

-- Whether a view shows.
shows : Option ℕ → LockView → Bool
shows account v = is_null v.lock.unlocked_at && lock_in_account account v.lock

-- A lock with a coin, at a height.
abbrev view : ℕ → LockRow → UtxoRow → LockView
view height l u = record { lock = l; utxo = u; spendable = leb l.unlock_block height }

marked_if : ℕ → Bool → LockRow → LockRow
marked_if now hit l =
    if hit && is_null l.unlocked_at then record l { unlocked_at = some now } else l

views-marked :
    (now height : ℕ) (account : Option ℕ) (hit : Bool) (l : LockRow) (us : List UtxoRow)
    → filter (shows account) (map (view height (marked_if now hit l)) us)
      ≡ (if hit then [] else filter (shows account) (map (view height l) us))
unfolding marked_if shows
views-marked now height account true l [] = refl
views-marked now height account false l us = refl
views-marked now height account true l (u ∷ us) =
    ground (arith, views-marked now height account true l us)

views-kept :
    (height : ℕ) (account : Option ℕ) (hit : LockRow → Bool) (l : LockRow) (us : List UtxoRow)
    → filter (λ v. not (hit v.lock)) (filter (shows account) (map (view height l) us))
      ≡ (if hit l then [] else filter (shows account) (map (view height l) us))
unfolding shows
views-kept height account hit l [] = ground arith
views-kept height account hit l (u ∷ us) = ground (arith, views-kept height account hit l us)

filter-append {ℓ} :
    {A : Type ℓ} (p : A → Bool) (xs ys : List A) → filter p (xs ++ ys) ≡ filter p xs ++ filter p ys
filter-append p [] ys = refl
filter-append p (x ∷ xs) ys = ground (arith, filter-append p xs ys)

marked_if-utxo : (now : ℕ) (hit : Bool) (l : LockRow) → (marked_if now hit l).utxo_id ≡ l.utxo_id
unfolding marked_if
marked_if-utxo now hit l = ground arith

-- The views of the marked locks that show are those that showed, but for the locks of the outpoint.
filter-join_mark :
    (now height : ℕ) (o : Outpoint) (by account : Option ℕ) (utxos : List UtxoRow)
    (ls : List LockRow)
    → filter
        (shows account)
        (join_utxos height utxos (map (λ l. marked_if now (locks_outpoint o by utxos l) l) ls))
      ≡ filter
          (λ v. not (locks_outpoint o by utxos v.lock))
          (filter (shows account) (join_utxos height utxos ls))
filter-join_mark now height o by account utxos [] = refl
filter-join_mark now height o by account utxos (l ∷ ls) =
    let hit = locks_outpoint o by utxos in
    let marked = marked_if now (hit l) l in
    let coins = filter (λ u. l.utxo_id == u.id) utxos in
    let rest = join_utxos height utxos ls in
    let rest' = join_utxos height utxos (map (λ k. marked_if now (hit k) k) ls) in
    ap
      (λ id.
        filter (shows account) (map (view height marked) (filter (λ u. id == u.id) utxos) ++ rest'))
      (marked_if-utxo now (hit l) l)
    ∙ (filter-append (shows account) (map (view height marked) coins) rest'
        ∙ (ap (λ vs. vs ++ filter (shows account) rest')
              (views-marked now height account (hit l) l coins)
            ∙ (ap (◌++◌ (if hit l then [] else filter (shows account) (map (view height l) coins)))
                  (filter-join_mark now height o by account utxos ls)
                ∙ sym (
                    ap (filter (λ v. not (hit v.lock)))
                      (filter-append (shows account) (map (view height l) coins) rest)
                    ∙ (filter-append (λ v. not (hit v.lock))
                          (filter (shows account) (map (view height l) coins))
                          (filter (shows account) rest)
                        ∙ ap
                            (λ vs.
                              vs ++ filter (λ v. not (hit v.lock)) (filter (shows account) rest))
                            (views-kept height account hit l coins))))))

-- After the locks of an outpoint are marked as unlocked, `getLocks` returns what it returned before, in the
-- same order, but for these locks.
pub get_locks-mark :
    (now height : ℕ) (o : Outpoint) (by account : Option ℕ) (s : Store) (t : LockTable)
    → get_locks height account s (mark_lock_unlocked_by_txid now o by s t)
      ≡ filter (λ v. not (locks_outpoint o by s.rows v.lock)) (get_locks height account s t)
unfolding get_locks mark_lock_unlocked_by_txid marked_if shows
get_locks-mark now height o by account s t =
    ap (sort_utxos_by_value (λ v. v.lock.unlock_block))
      (filter-join_mark now height o by account s.rows t.rows)
    ∙ sym (
        filter-sort (λ v. v.lock.unlock_block) (λ v. not (locks_outpoint o by s.rows v.lock))
          (filter (shows account) (join_utxos height s.rows t.rows)))
