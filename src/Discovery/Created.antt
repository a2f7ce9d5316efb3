-- ===== src/Discovery/Created.antt =====
-- Which of the found accounts are created.
use simply_sats.Prelude.{
  ℕ, suc, ◌≡◌, ◌⊎◌, refl, ap, true, none, is_some, Option-cases, List, [], ◌∷◌, All, take, drop,
  length, inl, inr,
}
use simply_sats.Discovery.{Creation, create_account, create_accounts}

module _ (outcome : ℕ → ℕ → Creation) where
  abbrev pub Created : ℕ → Type 0
  Created i = is_some (create_account 3 0 (outcome i)) ≡ true

  -- The first of these could not be created.
  abbrev pub StartsRefused : List ℕ → Type 0
  StartsRefused [] = ⊥
  StartsRefused (i ∷ is) = create_account 3 0 (outcome i) ≡ none

  -- The accounts counted are the first ones, all created; and they are all there are, or the next one could
  -- not be created.
  pub create_accounts-counted :
      (is : List ℕ)
      → All Created (take (create_accounts outcome is) is)
        × ((create_accounts outcome is ≡ length is)
            ⊎ StartsRefused (drop (create_accounts outcome is) is))
  unfolding create_accounts
  create_accounts-counted [] = (tt, inl refl)
  create_accounts-counted (i ∷ is) = elim (Option-cases (create_account 3 0 (outcome i))) [
    | inl e ↦ rw (e, create_accounts) (tt, inr e)
    | inr (id, e) ↦
        let (all, rest) = create_accounts-counted is in
        rw (e, create_accounts)
          ((ap is_some e, all), elim rest [ inl f ↦ inl (ap suc f) | inr s ↦ inr s ])
  ]
