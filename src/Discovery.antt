-- ===== src/Discovery.antt =====
-- The discovery of accounts after a restore (`discoverAccounts` of src/services/accountDiscovery.ts). What the
-- API says of an account's addresses, and what the creation of an account comes to, are inputs, for each
-- account and each attempt; waiting and logging are left out.
pub mod Complete
pub mod Created
use simply_sats.Prelude.{
  ℕ, zero, suc, ◌+◌, Bool, true, false, not, ◌&&◌, ◌||◌, Option, none, some, List, [], ◌∷◌, length,
  ◌==◌, ltb, leb, if◌then◌else◌,
}

abbrev pub max_account_discovery : ℕ
max_account_discovery = 200

abbrev pub discovery_gap_limit_after_first_hit : ℕ
discovery_gap_limit_after_first_hit = 5

abbrev pub discovery_max_retries : ℕ
discovery_max_retries = 3

-- Whether one of the balances is positive; `none` if none is, and one is not known. A balance is `none` where
-- its check was rejected or failed, the -1 of the backend included.
unfoldable pub activity_of : Bool → List (Option ℕ) → Option Bool
activity_of all_ok [] = if all_ok then some false else none
activity_of all_ok (none ∷ rs) = activity_of false rs
activity_of all_ok (some balance ∷ rs) =
    let rest = activity_of all_ok rs in if ltb 0 balance then some true else rest

unfoldable pub check_activity : List (Option ℕ) → Option Bool
unfolding activity_of
check_activity results = activity_of true results

-- The check with its retries, the first of which is number `attempt`.
unfoldable pub with_retries : ℕ → ℕ → (ℕ → Option Bool) → Option Bool
with_retries zero attempt check = check attempt
with_retries (suc n) attempt check = elim (check attempt) [
  | none ↦ with_retries n (suc attempt) check
  | some active ↦ some active
]

-- `answers i k`: the balances of account `i`'s wallet, ordinals and identity addresses at check `k`.
unfoldable pub probe : (ℕ → ℕ → List (Option ℕ)) → ℕ → Option Bool
unfolding check_activity with_retries
probe answers i = with_retries discovery_max_retries 0 (λ k. check_activity (answers i k))

module _ (activity : ℕ → Option Bool) where
  -- The loop from index `i` on, for `n` rounds: the indices that it pushes.
  unfoldable pub scan : ℕ → ℕ → Bool → ℕ → List ℕ
  scan zero i found_any empties = []
  scan (suc n) i found_any empties = elim (activity i) [
    | none ↦ scan n (suc i) found_any empties
    | some active ↦ elim active [
      | true ↦ i ∷ scan n (suc i) true 0
      | false ↦ elim (found_any && leb discovery_gap_limit_after_first_hit (suc empties)) [
        | true ↦ []
        | false ↦ scan n (suc i) found_any (if found_any then suc empties else empties)
      ]
    ]
  ]

  unfoldable pub scan_all : List ℕ
  unfolding scan
  scan_all = scan max_account_discovery 1 false 0

-- What `createAccount` comes to: an id, a database that is locked, or another error, by result or by an
-- exception; after an error by result, the account that has the identity is looked up.
pub data Creation : Type 0 where
  created : ℕ → Creation
  locked : Creation
  refused : Option ℕ → Creation
  thrown : Creation

-- `existing?.id`
abbrev pub existing_id : Option ℕ → Option ℕ
existing_id none = none
existing_id (some id) = if id == 0 then none else some id

-- The attempts that are left.
unfoldable pub create_account : ℕ → ℕ → (ℕ → Creation) → Option ℕ
create_account zero attempt outcome = none
create_account (suc n) attempt outcome = elim (outcome attempt) [
  | created id ↦ some id
  | locked ↦ create_account n (suc attempt) outcome
  | refused existing ↦ existing_id existing
  | thrown ↦ none
]

-- How many accounts are created, up to the first that fails.
unfoldable pub create_accounts : (ℕ → ℕ → Creation) → List ℕ → ℕ
unfolding create_account
create_accounts outcome [] = 0
create_accounts outcome (i ∷ is) = elim (create_account 3 0 (outcome i)) [
  | none ↦ 0
  | some id ↦ suc (create_accounts outcome is)
]

pub record Discovery : Type 0 where
  pub count : ℕ
  -- The account switched to in the end.
  pub switched_to : Option ℕ

-- `created > 0 && restoreActiveAccountId`
abbrev pub restored : ℕ → Option ℕ → Option ℕ
restored n active = if ltb 0 n then existing_id active else none

unfoldable pub discover_accounts :
    (ℕ → ℕ → List (Option ℕ)) → (ℕ → ℕ → Creation) → Option ℕ → Discovery
unfolding probe scan_all create_accounts
discover_accounts answers outcome active =
    let n = create_accounts outcome (scan_all (probe answers)) in
    record { count = n; switched_to = restored n active }
