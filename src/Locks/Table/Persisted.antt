-- ===== src/Locks/Table/Persisted.antt =====
-- Persisting locks.
use simply_sats.Prelude.{
  ℕ, suc, ◌<◌, ◌≡◌, ◌≢◌, refl, sym, ap, subst, Bool, true, false, Option, none, some, List, [], ◌∷◌,
  ◌++◌, any, All, Result, ok, err, ok-injective, Bool-cases, Option-cases, inl, inr, arith,
}
use simply_sats.Types.{Outpoint}
use simply_sats.Store.Defs.{Store, DbError}
use simply_sats.Store.Adding.{add_utxo, AddFault}
use simply_sats.Store.Adding.Laws.{IsValid}
use simply_sats.Store.Adding.Rules.{add_utxo-IsValid}
use simply_sats.Locks.Merging.{LockedUtxo}
use simply_sats.Locks.Table.{
  LockRow, LockTable, NewLock, lock_row, locks_utxo, add_lock, find_lock_of, add_lock_if_not_exists,
  lock_utxo, new_lock, lock_added, persist_lock, persist_locks,
}

-- Each coin has at most one lock, and no lock has an id that is still to come.
abbrev pub HasOneLockEach : List LockRow → Type 0
HasOneLockEach [] = Unit
HasOneLockEach (r ∷ rs) = (find_lock_of r.utxo_id rs ≡ none) × HasOneLockEach rs

pub record IsSound (t : LockTable) : Type 0 where
  pub single : HasOneLockEach t.rows
  pub fresh : All (λ r. r.id < t.next_id) t.rows

find-append_ne :
    (k : ℕ) (new : LockRow) (rs : List LockRow)
    → find_lock_of k rs ≡ none
    → new.utxo_id ≢ k
    → find_lock_of k (rs ++ (new ∷ [])) ≡ none
find-append_ne k new [] h ne = ground (arith, ne)
find-append_ne k new (r ∷ rs) h ne = ground (arith, find-append_ne k new rs, ne)

HasOneLockEach-append :
    (new : LockRow) (rs : List LockRow)
    → HasOneLockEach rs
    → find_lock_of new.utxo_id rs ≡ none
    → HasOneLockEach (rs ++ (new ∷ []))
HasOneLockEach-append new [] h f = (refl, tt)
HasOneLockEach-append new (r ∷ rs) h f = (
  find-append_ne r.utxo_id new rs h.0 (λ e. ground arith),
  HasOneLockEach-append new rs h.1 (ground arith),
)

any-find : (k : ℕ) (rs : List LockRow) → any (locks_utxo k) rs ≡ false → find_lock_of k rs ≡ none
any-find k [] h = refl
any-find k (r ∷ rs) h = ground (arith, any-find k rs)

fresh-append :
    (n : ℕ) (new : LockRow) (rs : List LockRow)
    → All (λ r. r.id < n) rs
    → new.id < suc n
    → All (λ r. r.id < suc n) (rs ++ (new ∷ []))
fresh-append n new [] h e = (e, tt)
fresh-append n new (r ∷ rs) h e = (omega (arith, h.0), fresh-append n new rs h.1 e)

add_lock-IsSound :
    (faults : Bool) (l : NewLock) (account : Option ℕ) (t : LockTable)
    → IsSound t
    → IsSound (add_lock faults l account t).1
unfolding add_lock
add_lock-IsSound true l account t v = v
add_lock-IsSound false l account t v = elim (Bool-cases (any (locks_utxo l.utxo_id) t.rows)) [
  | inl e ↦ rw e v
  | inr e ↦ rw e (record {
    single =
        HasOneLockEach-append (lock_row l account t.next_id) t.rows v.single
          (any-find l.utxo_id t.rows e);
    fresh = fresh-append t.next_id (lock_row l account t.next_id) t.rows v.fresh (omega arith);
  })
]

add_lock_if_not_exists-IsSound :
    (faults : Bool) (l : NewLock) (account : Option ℕ) (t : LockTable)
    → IsSound t
    → IsSound (add_lock_if_not_exists faults l account t).1
unfolding add_lock_if_not_exists
add_lock_if_not_exists-IsSound faults l account t v =
    elim (Option-cases (find_lock_of l.utxo_id t.rows)) [
      | inl e ↦ rw (e, add_lock_if_not_exists) (add_lock-IsSound faults l account t v)
      | inr (r, e) ↦ rw (e, add_lock_if_not_exists) v
    ]

lock_added-IsSound :
    (faults : Bool) (l : LockedUtxo) (account : Option ℕ) (t : LockTable)
    (r : Result ℕ DbError × Store)
    → IsSound t
    → IsSound (lock_added faults l account t r).1
unfolding add_lock_if_not_exists
lock_added-IsSound faults l account t (ok id, s) v =
    add_lock_if_not_exists-IsSound faults (new_lock l id) account t v
lock_added-IsSound faults l account t (err e, s) v = v

pub lock_added-store :
    (faults : Bool) (l : LockedUtxo) (account : Option ℕ) (t : LockTable)
    (r : Result ℕ DbError × Store)
    → (lock_added faults l account t r).0 ≡ r.1
unfolding add_lock_if_not_exists
lock_added-store faults l account t (ok id, s) = refl
lock_added-store faults l account t (err e, s) = refl

-- Whatever fails while locks are persisted, the table of coins keeps its keys, and the table of locks has at
-- most one lock for each coin, and none with an id that is still to come.
pub persist_locks-IsSound :
    (utxo_fails : Outpoint → AddFault) (lock_fails : Outpoint → Bool) (ls : List LockedUtxo)
    (account : Option ℕ) (s : Store) (t : LockTable)
    → IsValid s
    → IsSound t
    → IsValid (persist_locks utxo_fails lock_fails ls account s t).0
      × IsSound (persist_locks utxo_fails lock_fails ls account s t).1
unfolding persist_locks persist_lock
persist_locks-IsSound utxo_fails lock_fails [] account s t v w = (v, w)
persist_locks-IsSound utxo_fails lock_fails (l ∷ ls) account s t v w =
    let added = add_utxo (utxo_fails l.at) (lock_utxo l) account s in
    let done = lock_added (lock_fails l.at) l account t added in
    persist_locks-IsSound utxo_fails lock_fails ls account done.0 done.1
      (subst IsValid (sym (lock_added-store (lock_fails l.at) l account t added))
        (add_utxo-IsValid (utxo_fails l.at) (lock_utxo l) account s v))
      (lock_added-IsSound (lock_fails l.at) l account t added w)

none-any : (k : ℕ) (rs : List LockRow) → find_lock_of k rs ≡ none → any (locks_utxo k) rs ≡ false
none-any k [] h = refl
none-any k (r ∷ rs) h = ground (arith, none-any k rs)

find-append_new :
    (k : ℕ) (new : LockRow) (rs : List LockRow)
    → find_lock_of k rs ≡ none
    → new.utxo_id ≡ k
    → find_lock_of k (rs ++ (new ∷ [])) ≡ some new
find-append_new k new [] h e = ground (arith, e)
find-append_new k new (r ∷ rs) h e = ground (arith, find-append_new k new rs, e)

-- A coin that has a lock, or gets one, has one after the call.
pub has_lock :
    (l : NewLock) (account : Option ℕ) (t : LockTable)
    → (r : LockRow) × (find_lock_of l.utxo_id (add_lock_if_not_exists false l account t).1.rows
        ≡ some r)
unfolding add_lock_if_not_exists add_lock
has_lock l account t = elim (Option-cases (find_lock_of l.utxo_id t.rows)) [
  | inl e ↦
      let new = lock_row l account t.next_id in
      (
        new,
        rw (e, add_lock_if_not_exists)
            (rw (none-any l.utxo_id t.rows e) (find-append_new l.utxo_id new t.rows e refl)),
      )
  | inr (r, e) ↦ (r, rw (e, add_lock_if_not_exists) e)
]

pub lock_added-ok :
    (faults : Bool) (l : LockedUtxo) (account : Option ℕ) (t : LockTable)
    (r : Result ℕ DbError × Store) (id : ℕ)
    → r.0 ≡ ok id
    → (lock_added faults l account t r).1
      ≡ (add_lock_if_not_exists faults (new_lock l id) account t).1
unfolding add_lock_if_not_exists
lock_added-ok faults l account t (ok k, s) id e =
    ap (λ n. (add_lock_if_not_exists faults (new_lock l n) account t).1) (ok-injective e)
lock_added-ok faults l account t (err e, s) id h = absurd (ground arith)
