-- ===== src/Locks/Merging/Lookup.antt =====
-- What is found under a key in merged and combined locks.
use simply_sats.Prelude.{
  ◌≡◌, refl, sym, ap, ◌∙◌, Bool, true, false, Option, none, some, List, [], ◌∷◌, if◌then◌else◌,
  arith, Bool-cases, Option-cases, is_some, inl, inr,
}
use simply_sats.Types.{Outpoint}
use simply_sats.Locks.Merging.{
  LockedUtxo, same_key, find_lock, has_key, put_lock, lock_map, add_missing,
  combine_locks_with_existing,
}

-- The first of two optional locks.
abbrev pub or_lock : Option LockedUtxo → Option LockedUtxo → Option LockedUtxo
or_lock none d = d
or_lock (some l) d = some l

-- The first lock under a key.
abbrev pub first_lock : Outpoint → List LockedUtxo → Option LockedUtxo
first_lock o [] = none
first_lock o (l ∷ ls) = if same_key l.at o then some l else first_lock o ls

or_lock_assoc : (a b c : Option LockedUtxo) → or_lock (or_lock a b) c ≡ or_lock a (or_lock b c)
or_lock_assoc none b c = refl
or_lock_assoc (some a) b c = refl

find_lock-cons :
    (o : Outpoint) (l : LockedUtxo) (ls : List LockedUtxo)
    → find_lock o (l ∷ ls) ≡ or_lock (find_lock o ls) (if same_key l.at o then some l else none)
unfolding find_lock
find_lock-cons o l ls = elim (Option-cases (find_lock o ls)) [
  | inl e ↦ rw (e, find_lock) refl
  | inr (k, e) ↦ rw (e, find_lock) refl
]

pub same_key_eq : (p o : Outpoint) → same_key p o ≡ true → p ≡ o
same_key_eq p o e =
    let a : p.txid ≡ o.txid = ground (arith, e) in
    let b : p.vout ≡ o.vout = ground (arith, e) in λ i. record { txid = a i; vout = b i }

pub same_key_sym : (p o : Outpoint) → same_key p o ≡ same_key o p
same_key_sym p o = ground arith

-- Two locks under one key are under the same third key.
same_key_trans :
    (k l : LockedUtxo) (o : Outpoint)
    → same_key k.at l.at ≡ true
    → same_key k.at o ≡ same_key l.at o
same_key_trans k l o e = ap (λ p. same_key p o) (same_key_eq k.at l.at e)

twice_if :
    (b : Bool) (x y z : Option LockedUtxo)
    → (if b then x else y) ≡ (if b then x else (if b then z else y))
twice_if true x y z = refl
twice_if false x y z = refl

if_or :
    (b : Bool) (l : LockedUtxo) (d : Option LockedUtxo)
    → (if b then some l else d) ≡ or_lock (if b then some l else none) d
if_or true l d = refl
if_or false l d = refl

first_lock-put_lock :
    (o : Outpoint) (m : List LockedUtxo) (l : LockedUtxo)
    → first_lock o (put_lock m l) ≡ (if same_key l.at o then some l else first_lock o m)
first_lock-put_lock o [] l = refl
first_lock-put_lock o (k ∷ ks) l = elim (Bool-cases (same_key k.at l.at)) [
  | inl e ↦
      rw (e, same_key_trans k l o e)
        (twice_if (same_key l.at o) (some l) (first_lock o ks) (some k))
  | inr e ↦
      rw (e, first_lock-put_lock o ks l)
        (elim (Bool-cases (same_key k.at o)) [
          | inl f ↦
              rw (f, sym (ap (same_key l.at) (same_key_eq k.at o f)) ∙ same_key_sym l.at k.at ∙ e)
                refl
          | inr f ↦ rw f refl
        ])
]

first_lock-lock_map :
    (o : Outpoint) (m ls : List LockedUtxo)
    → first_lock o (lock_map m ls) ≡ or_lock (find_lock o ls) (first_lock o m)
unfolding lock_map find_lock
first_lock-lock_map o m [] = refl
first_lock-lock_map o m (l ∷ ls) =
    first_lock-lock_map o (put_lock m l) ls
    ∙ ap (or_lock (find_lock o ls))
        (first_lock-put_lock o m l ∙ if_or (same_key l.at o) l (first_lock o m))
    ∙ sym (or_lock_assoc (find_lock o ls) _ _)
    ∙ ap (λ x. or_lock x (first_lock o m)) (sym (find_lock-cons o l ls))

has_key-first_lock :
    (o : Outpoint) (ls : List LockedUtxo) → is_some (first_lock o ls) ≡ has_key ls o
has_key-first_lock o [] = refl
has_key-first_lock o (l ∷ ls) = elim (Bool-cases (same_key l.at o)) [
  | inl e ↦ rw e refl
  | inr e ↦ rw e (has_key-first_lock o ls)
]

or_lock-none : (a : Option LockedUtxo) → a ≡ or_lock a none
or_lock-none none = refl
or_lock-none (some a) = refl

or_lock-some : (a x y : Option LockedUtxo) → is_some a ≡ true → or_lock a x ≡ or_lock a y
or_lock-some none x y h = absurd (ground arith)
or_lock-some (some a) x y h = refl

or_lock-missing : (a x : Option LockedUtxo) → is_some a ≡ false → or_lock a x ≡ x
or_lock-missing none x h = refl
or_lock-missing (some a) x h = absurd (ground arith)

known :
    (o : Outpoint) (m : List LockedUtxo) (l : LockedUtxo)
    → same_key l.at o ≡ true
    → is_some (first_lock o m) ≡ has_key m l.at
known o m l f = has_key-first_lock o m ∙ ap (has_key m) (sym (same_key_eq l.at o f))

joined :
    (o : Outpoint) (m : List LockedUtxo) (l : LockedUtxo) (ls : List LockedUtxo)
    → or_lock (first_lock o (if has_key m l.at then m else put_lock m l)) (first_lock o ls)
      ≡ or_lock (first_lock o m) (first_lock o (l ∷ ls))
joined o m l ls = elim (Bool-cases (has_key m l.at)) [
  | inl e ↦ rw e (elim (Bool-cases (same_key l.at o)) [
    | inl f ↦ or_lock-some (first_lock o m) _ _ (known o m l f ∙ e)
    | inr f ↦ rw f refl
  ])
  | inr e ↦
      rw (e, first_lock-put_lock o m l)
        (elim (Bool-cases (same_key l.at o)) [
          | inl f ↦ rw f (sym (or_lock-missing (first_lock o m) (some l) (known o m l f ∙ e)))
          | inr f ↦ rw f refl
        ])
]

first_lock-add_missing :
    (o : Outpoint) (m ls : List LockedUtxo)
    → first_lock o (add_missing m ls) ≡ or_lock (first_lock o m) (first_lock o ls)
unfolding add_missing
first_lock-add_missing o m [] = or_lock-none (first_lock o m)
first_lock-add_missing o m (l ∷ ls) =
    first_lock-add_missing o (if has_key m l.at then m else put_lock m l) ls ∙ joined o m l ls

-- Detected locks win over those that were shown before: what the combination has under a key is the last
-- detected lock under it, and where there is none, the first earlier one.
pub first_lock-combine :
    (o : Outpoint) (merged existing : List LockedUtxo)
    → first_lock o (combine_locks_with_existing merged existing)
      ≡ or_lock (find_lock o merged) (first_lock o existing)
unfolding combine_locks_with_existing
first_lock-combine o merged existing =
    first_lock-add_missing o (lock_map [] merged) existing
    ∙ ap (λ x. or_lock x (first_lock o existing))
        (first_lock-lock_map o [] merged ∙ sym (or_lock-none (find_lock o merged)))
