-- ===== src/Locks/Merging/Keeping.antt =====
-- Which locks a reconciliation keeps.
use simply_sats.Prelude.{
  ℕ, ◌≡◌, refl, sym, ap, ◌∙◌, Bool, true, false, not, ◌&&◌, ◌||◌, Option, none, some, List, [], ◌∷◌,
  ◌++◌, map, filter, any, arith, Bool-cases, inl, inr,
}
use simply_sats.Types.{Outpoint}
use simply_sats.Locks.Merging.{
  LockedUtxo, same_key, find_lock, has_key, merge_lock, merge_with_preloaded, TxAnswer,
  is_not_found, is_phantom, void_phantom_locks, reconcile_locks,
}
use simply_sats.Locks.Merging.Lookup.{same_key_eq, same_key_sym}

has_key-append :
    (o : Outpoint) (ls ks : List LockedUtxo) → has_key (ls ++ ks) o ≡ has_key ls o || has_key ks o
has_key-append o [] ks = refl
has_key-append o (l ∷ ls) ks = elim (Bool-cases (same_key l.at o)) [
  | inl e ↦ rw e refl
  | inr e ↦ rw e (has_key-append o ls ks)
]

and_false : (b : Bool) → b && false ≡ false
and_false true = refl
and_false false = refl

-- A selection by key.
has_key-filter :
    (q : Outpoint → Bool) (o : Outpoint) (ls : List LockedUtxo)
    → has_key (filter (λ l. q l.at) ls) o ≡ has_key ls o && q o
has_key-filter q o [] = refl
has_key-filter q o (l ∷ ls) = elim (Bool-cases (same_key l.at o)) [
  | inl e ↦
      let qo : q l.at ≡ q o = ap q (same_key_eq l.at o e) in
      elim (Bool-cases (q l.at)) [
        | inl f ↦ rw (f, e) (sym f ∙ qo)
        | inr f ↦
            rw (f, e)
              (has_key-filter q o ls
                ∙ ap (λ b. has_key ls o && b) (sym qo ∙ f)
                ∙ and_false (has_key ls o)
                ∙ sym (sym qo ∙ f))
      ]
  | inr e ↦ elim (Bool-cases (q l.at)) [
    | inl f ↦ rw (f, e) (has_key-filter q o ls)
    | inr f ↦ rw (f, e) (has_key-filter q o ls)
  ]
]

merge_lock-at : (l : LockedUtxo) (p : Option LockedUtxo) → (merge_lock l p).at ≡ l.at
unfolding merge_lock
merge_lock-at l none = refl
merge_lock-at l (some p) = refl

has_key-map :
    (o : Outpoint) (f : LockedUtxo → LockedUtxo) (ls : List LockedUtxo)
    → ((l : LockedUtxo) → (f l).at ≡ l.at)
    → has_key (map f ls) o ≡ has_key ls o
has_key-map o f [] h = refl
has_key-map o f (l ∷ ls) h =
    ap (λ p. same_key p o || has_key (map f ls) o) (h l)
    ∙ ap (λ b. same_key l.at o || b) (has_key-map o f ls h)

any-voided :
    (o : Outpoint) (ls : List LockedUtxo) → any (same_key o) (map (λ p. p.at) ls) ≡ has_key ls o
any-voided o [] = refl
any-voided o (l ∷ ls) =
    ap (λ b. b || any (same_key o) (map (λ p. p.at) ls)) (same_key_sym o l.at)
    ∙ ap (λ b. same_key l.at o || b) (any-voided o ls)

decided :
    (d p n u : Bool)
    → d || ((p && not (p && (not d && n && not u))) && not d) ≡ d || (p && (not n || u))
decided true p n u = refl
decided false false n u = refl
decided false true n u = ground arith

-- No lock is lost but phantoms: a key is among the reconciled locks exactly if it was detected, or if it was
-- in the database and the API did not say that there is no such transaction, or marking it failed.
pub has_key-reconcile :
    (ask : ℕ → TxAnswer) (unlock_fails : Outpoint → Bool) (detected preloaded : List LockedUtxo)
    (o : Outpoint)
    → has_key (reconcile_locks ask unlock_fails detected preloaded) o
      ≡ has_key detected o
        || (has_key preloaded o && (not (is_not_found (ask o.txid)) || unlock_fails o))
unfolding reconcile_locks merge_with_preloaded void_phantom_locks
has_key-reconcile ask unlock_fails detected preloaded o =
    let ph : Outpoint → Bool =
      λ o. not (has_key detected o) && is_not_found (ask o.txid) && not (unlock_fails o) in
    let phantoms = filter (is_phantom ask unlock_fails detected) preloaded in
    let voided = map (λ p. p.at) phantoms in
    let stays : Outpoint → Bool = λ o. not (any (same_key o) voided) in
    let valid = filter (λ p. stays p.at) preloaded in
    let fresh : Outpoint → Bool = λ o. not (has_key detected o) in
    has_key-append o (map (λ l. merge_lock l (find_lock l.at valid)) detected)
      (filter (λ p. fresh p.at) valid)
    ∙ ap (λ b. b || has_key (filter (λ p. fresh p.at) valid) o)
        (has_key-map o (λ l. merge_lock l (find_lock l.at valid)) detected
          (λ l. merge_lock-at l (find_lock l.at valid)))
    ∙ ap (λ b. has_key detected o || b)
        (has_key-filter fresh o valid
          ∙ ap (λ b. b && fresh o)
              (has_key-filter stays o preloaded
                ∙ ap (λ b. has_key preloaded o && not b)
                    (any-voided o phantoms ∙ has_key-filter ph o preloaded)))
    ∙ decided (has_key detected o) (has_key preloaded o) (is_not_found (ask o.txid))
        (unlock_fails o)
