-- ===== src/WalletSync/Payable.antt =====
-- The coins that the wallet offers for a payment (`getSpendableUtxosFromDatabase` of
-- src/services/sync/utxoSync.ts), described coin by coin.
use mathlib.Core.List.{Perm, perm_middle}
use mathlib.Core.List.Perm
use simply_sats.Prelude.{
  ℕ, ◌≡◌, ◌≢◌, refl, ap, ◌∙◌, inl, inr, Bool, true, false, not, ◌&&◌, Option, none, some, List, [],
  ◌∷◌, ◌++◌, filter, filter-filter, All, All-imp, All-filter, ◌↔◌, Bool-cases, arith,
}
use simply_sats.Coins.{sort_utxos_by_value}
use simply_sats.Coins.Sorting.{
  IsAscending, sort_utxos_by_value-IsAscending, sort_utxos_by_value-perm, sort_utxos_by_value-All,
}
use simply_sats.Store.Defs.{
  UtxoRow, Store, SpendingStatus, unspent, pending, spent, in_account, is_spendable, is_null,
  is_unspent, if_given, eq_column,
}
use simply_sats.Store.Queries.{get_spendable_utxos}
use simply_sats.WalletSync.Queries.{
  pending_txid_set, is_among, in_basket, get_spendable_utxos_from_database,
}

abbrev pub IsOwned : Option ℕ → Option ℕ → Type 0
IsOwned none owner = Unit
IsOwned (some a) owner = owner ≡ some a

-- None of the pending transactions that the database tells of made the coin.
abbrev pub IsSettled : Option (List ℕ) → ℕ → Type 0
IsSettled none txid = Unit
IsSettled (some txids) txid = All (λ t. t ≢ txid) txids

-- A status that is missing counts as unspent.
abbrev pub IsUnspent : Option SpendingStatus → Type 0
IsUnspent none = Unit
IsUnspent (some status) = status ≡ unspent

pub record IsPayable (basket : ℕ) (account : Option ℕ) (awaited : Option (List ℕ)) (u : UtxoRow)
    : Type 0 where
  pub spendable : u.spendable ≡ true
  pub not_spent : u.spent_at ≡ none
  pub unspent : IsUnspent u.spending_status
  pub owned : IsOwned account u.account_id
  pub kept : u.basket ≡ basket
  pub settled : IsSettled awaited u.txid

null_iff : (x : Option ℕ) → (is_null x ≡ true) ↔ (x ≡ none)
null_iff none = (λ h. refl, λ h. refl)
null_iff (some k) = (λ h. ground (arith, h), λ h. ground (arith, h))

IsUnspent-iff : (s : Option SpendingStatus) → (is_unspent s ≡ true) ↔ IsUnspent s
IsUnspent-iff none = (λ h. tt, λ h. refl)
IsUnspent-iff (some unspent) = (λ h. refl, λ h. refl)
IsUnspent-iff (some pending) = (λ h. ground (arith, h), λ h. ground (arith, h))
IsUnspent-iff (some spent) = (λ h. ground (arith, h), λ h. ground (arith, h))

IsOwned-iff :
    (account owner : Option ℕ)
    → (if_given account (λ a. eq_column owner a) ≡ true) ↔ IsOwned account owner
IsOwned-iff none owner = (λ h. tt, λ h. refl)
IsOwned-iff (some a) none = (λ h. ground (arith, h), λ h. ground (arith, h))
IsOwned-iff (some a) (some b) = (λ h. ground (arith, h), λ h. ground (arith, h))

among_iff : (ts : List ℕ) (txid : ℕ) → (is_among ts txid ≡ false) ↔ All (λ t. t ≢ txid) ts
among_iff [] txid = (λ h. tt, λ h. refl)
among_iff (t ∷ ts) txid = (
  λ h. (λ e. ground (arith, e, h), (among_iff ts txid).0 (ground (arith, h))),
  λ h. ground (arith, h.0, (among_iff ts txid).1 h.1),
)

IsSettled-iff :
    (awaited : Option (List ℕ)) (txid : ℕ)
    → (is_among (pending_txid_set awaited) txid ≡ false) ↔ IsSettled awaited txid
IsSettled-iff none txid = (λ h. tt, λ h. refl)
IsSettled-iff (some ts) txid = among_iff ts txid

-- A list is made of what passes a test and what does not.
perm-filter :
    (p : UtxoRow → Bool) (rs : List UtxoRow) → Perm (filter p rs ++ filter (λ r. not (p r)) rs) rs
perm-filter p [] = Perm.refl []
perm-filter p (r ∷ rs) = elim (Bool-cases (p r)) [
  | inl e ↦ rw e (Perm.cons r (perm-filter p rs))
  | inr e ↦ rw e (Perm.trans (perm_middle _ _) (Perm.cons r (perm-filter p rs)))
]

module _ (basket : ℕ) (account : Option ℕ) (awaited : Option (List ℕ)) where
  -- The tests of the code.
  abbrev passes : UtxoRow → Bool
  passes r =
      ((is_spendable r && in_account account r) && in_basket basket r)
      && not (is_among (pending_txid_set awaited) r.txid)

  passes-IsPayable : (r : UtxoRow) → passes r ≡ true → IsPayable basket account awaited r
  passes-IsPayable r h = record {
    spendable = ground (arith, h);
    not_spent = (null_iff r.spent_at).0 (ground (arith, h));
    unspent = (IsUnspent-iff r.spending_status).0 (ground (arith, h));
    owned = (IsOwned-iff account r.account_id).0 (ground (arith, h));
    kept = ground (arith, h);
    settled = (IsSettled-iff awaited r.txid).0 (ground (arith, h));
  }

  IsPayable-passes : (r : UtxoRow) → IsPayable basket account awaited r → passes r ≡ true
  IsPayable-passes r h = ground (
    arith,
    h.spendable,
    h.kept,
    (null_iff r.spent_at).1 h.not_spent,
    (IsUnspent-iff r.spending_status).1 h.unspent,
    (IsOwned-iff account r.account_id).1 h.owned,
    (IsSettled-iff awaited r.txid).1 h.settled,
  )

  abbrev chosen : Store → List UtxoRow
  chosen s = filter passes s.rows

  chosen-sorted :
      (s : Store)
      → get_spendable_utxos_from_database basket account (some s) awaited
        ≡ sort_utxos_by_value (λ u. u.satoshis) (chosen s)
  unfolding get_spendable_utxos_from_database get_spendable_utxos
  chosen-sorted s =
      let open_coin : UtxoRow → Bool = λ r. is_spendable r && in_account account r in
      let free : UtxoRow → Bool = λ r. not (is_among (pending_txid_set awaited) r.txid) in
      ap (sort_utxos_by_value (λ u. u.satoshis)) (
        ap (filter free) (filter-filter open_coin (in_basket basket) s.rows)
        ∙ filter-filter (λ r. open_coin r && in_basket basket r) free s.rows)

-- With the table queried, its rows are split into the coins offered for a payment, which come ascending by
-- value, and the rest. A row is offered exactly if it is spendable, with no time of a spend and no other
-- status than unspent, in the basket, of the account if one is given, and no output of a transaction that
-- the database tells to be pending. Where the query for the pending ones fails, they do not matter.
pub get_spendable_utxos_from_database-IsPayable :
    (basket : ℕ) (account : Option ℕ) (awaited : Option (List ℕ)) (s : Store)
    → (rest : List UtxoRow) × Perm
        (get_spendable_utxos_from_database basket account (some s) awaited ++ rest)
        s.rows
      × All
          (IsPayable basket account awaited)
          (get_spendable_utxos_from_database basket account (some s) awaited)
      × All (λ u. ¬ IsPayable basket account awaited u) rest
      × IsAscending
          (λ u. u.satoshis)
          (get_spendable_utxos_from_database basket account (some s) awaited)
get_spendable_utxos_from_database-IsPayable basket account awaited s =
    let p = passes basket account awaited in
    let value : UtxoRow → ℕ = λ u. u.satoshis in
    rw (chosen-sorted basket account awaited s) (
      filter (λ r. not (p r)) s.rows,
      Perm.trans
          (Perm.append_right (filter (λ r. not (p r)) s.rows)
            (sort_utxos_by_value-perm value (filter p s.rows)))
          (perm-filter p s.rows),
      sort_utxos_by_value-All value (IsPayable basket account awaited) (filter p s.rows) (
          All-imp (λ r. p r ≡ true) (IsPayable basket account awaited) (filter p s.rows)
            (passes-IsPayable basket account awaited) (All-filter p s.rows)),
      All-imp (λ r. not (p r) ≡ true) (λ u. ¬ IsPayable basket account awaited u)
          (filter (λ r. not (p r)) s.rows)
          (λ r h payable. ground (arith, h, IsPayable-passes basket account awaited r payable))
          (All-filter (λ r. not (p r)) s.rows),
      sort_utxos_by_value-IsAscending value (filter p s.rows),
    )
