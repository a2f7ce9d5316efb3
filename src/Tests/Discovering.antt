-- ===== src/Tests/Discovering.antt =====
-- The discovery of accounts and the inactivity lock at concrete inputs.
use simply_sats.Prelude.{
  ℕ, ◌+◌, ◌≡◌, ◌≤◌, ◌⊎◌, refl, true, false, Option, none, some, List, [], ◌∷◌, ltb, ◌==◌, ◌||◌,
  if◌then◌else◌, arith,
}
use simply_sats.Discovery.{
  probe, check_activity, activity_of, with_retries, scan, scan_all, Creation, created, locked,
  refused, create_account, create_accounts,
}
use simply_sats.Discovery.Complete.{Found, GapBefore, scan_all_complete}
use simply_sats.AutoLock.{
  AutoLock, initial, init_auto_lock, pause_auto_lock, resume_auto_lock, stop_auto_lock, user_event,
  tick, lock, is_auto_lock_enabled, get_time_until_lock,
}
use simply_sats.AutoLock.Timing.{Alarms, init_auto_lock-Alarms, resume_auto_lock-stopped}
use simply_sats.AutoLock.Reachable.{loaded, called, init, call, Reach-IsGuarded}

-- Accounts 2 and 4 are active, 3 answers only at the third check, and the checks of 5 all fail.
abbrev answers : ℕ → ℕ → List (Option ℕ)
answers i k =
    if i == 2 || i == 4
    then some 0 ∷ some 700 ∷ none ∷ []
    else if i == 3
    then (if ltb k 2 then none ∷ some 0 ∷ some 0 ∷ [] else some 0 ∷ some 0 ∷ some 0 ∷ [])
    else if i == 5
    then none ∷ none ∷ none ∷ []
    else some 0 ∷ some 0 ∷ some 0 ∷ []

scan_all-answers : scan_all (probe answers) ≡ 2 ∷ 4 ∷ []
unfolding scan_all scan probe check_activity activity_of with_retries
scan_all-answers = refl

scan_all_complete_example :
    Found (probe answers) 4 (scan_all (probe answers)) ⊎ GapBefore (probe answers) 4
unfolding probe check_activity activity_of with_retries
scan_all_complete_example = scan_all_complete (probe answers) 4 (omega arith) (omega arith) refl

-- The second account is created at the third attempt, the third one not at all.
abbrev outcomes : ℕ → ℕ → Creation
outcomes i k =
    if i == 4
    then (if ltb k 2 then locked else created 9)
    else if i == 7
    then refused none
    else refused (some 3)

create_accounts-outcomes : create_accounts outcomes (2 ∷ 4 ∷ 7 ∷ []) ≡ 2
unfolding create_accounts create_account
create_accounts-outcomes = refl

init_auto_lock-Alarms_example : Alarms 1000 60000 12 (init_auto_lock 1000 60000 true (initial 0))
init_auto_lock-Alarms_example =
    init_auto_lock-Alarms 1000 60000 12 (initial 0) (omega arith) (omega arith)

resume_auto_lock-stopped_example :
    let r = resume_auto_lock 5000 true (pause_auto_lock (stop_auto_lock (initial 0))) in
    (user_event 6000 r ≡ r) × Alarms 5000 600000 120 r
unfolding initial
resume_auto_lock-stopped_example =
    resume_auto_lock-stopped 5000 120 6000 (initial 0) (omega arith) (omega arith)

running : AutoLock
running = call 1000 (init 60000 false) (initial 0)

Reach-IsGuarded_example :
    (left : ℕ) × (get_time_until_lock 1000 running ≡ some left)
    × (left ≤ running.inactivity_limit)
    × (tick (1000 + left + 7) running ≡ (lock, record running { is_enabled = false }))
unfolding running call init_auto_lock is_auto_lock_enabled
Reach-IsGuarded_example =
    Reach-IsGuarded 1000 running (called 1000 (init 60000 false) (loaded 0) (omega arith)) 7 refl
