-- ===== src/Tests/Services.antt =====
-- The lock, the request manager and the rate limiter.
use simply_sats.Prelude.{ℕ, ◌≡◌, refl, true, false, none, some, List, [], ◌∷◌, arith}
use simply_sats.Sync.Mutex.{
  Ticket, waiting, holding, released, SyncMutex, new_mutex, acquire, resume, release, Reach, here,
  next, acquires, resumes, releases,
}
use simply_sats.Sync.Exclusion.{IsSound, Reach-IsSound, Reach-resume}
use simply_sats.RateLimiter.{
  FallbackState, reset_state, check_unlock_rate_limit, record_failed_unlock_attempt,
  record_successful_unlock,
}
use simply_sats.RateLimiter.Lockout.{failed_at, checked_at, check_unlock_rate_limit-locked}
use simply_sats.Requests.Manager.{PendingRequest, Manager, adds, resolves, new_manager, step, run}
use simply_sats.Requests.Settling.{IsBounded, accounted, step-accounted}
use simply_sats.Requests.Staleness.{new_manager-IsBounded}

-- Two calls; the first holds the lock.
abbrev first_holds : SyncMutex
first_holds = record { tickets = holding ∷ waiting ∷ []; locked = true }

abbrev first_done : SyncMutex
first_done = record { tickets = released ∷ waiting ∷ []; locked = false }

first_holds-Reach : Reach new_mutex first_holds
unfolding new_mutex acquire resume
first_holds-Reach =
    next (next (next here (acquires new_mutex)) (acquires (acquire new_mutex)))
      (resumes (acquire (acquire new_mutex)) 0 (holding ∷ waiting ∷ []) refl)

first_done-Reach : Reach new_mutex first_done
unfolding release
first_done-Reach = next first_holds-Reach (releases first_holds 0 (released ∷ waiting ∷ []) refl)

Reach-IsSound_example : IsSound first_holds
Reach-IsSound_example = Reach-IsSound first_holds-Reach

Reach-resume_example : (n : ℕ) × (us : List Ticket) × (resume n true first_done.tickets ≡ some us)
Reach-resume_example = Reach-resume first_done-Reach refl refl

abbrev pending_request : PendingRequest
pending_request = record {
  request = 8;
  promise = 31;
  expected_identity_pub_key = none;
  created_at = 1000;
}

abbrev one_pending : Manager
one_pending = record {
  pending = (5, pending_request) ∷ [];
  has_handler = false;
  ttl_ms = 300;
  log = [];
}

step-accounted_example : accounted 31 (step one_pending (resolves 5 40)) ≡ 1
step-accounted_example = step-accounted 31 one_pending (resolves 5 40) tt

new_manager-IsBounded_example :
    IsBounded (run (new_manager 300) (adds 5 pending_request ∷ resolves 5 40 ∷ []))
new_manager-IsBounded_example =
    new_manager-IsBounded 300 (adds 5 pending_request ∷ resolves 5 40 ∷ [])

one_pending-IsBounded : IsBounded one_pending
one_pending-IsBounded = record { keys = (refl, tt); size = omega arith }

-- Four failures with a check among them, and the fifth a second later.
abbrev locked_at_5000 : FallbackState
locked_at_5000 = record { attempts = 5; lockout_until = 305_000 }

check_unlock_rate_limit-locked_example :
    (true ≡ true)
    × (reset_state.attempts ≡ 0)
    × (check_unlock_rate_limit none 105_000 locked_at_5000
        ≡ (record { is_limited = true; remaining_ms = 200_000 }, locked_at_5000))
unfolding record_failed_unlock_attempt record_successful_unlock check_unlock_rate_limit
check_unlock_rate_limit-locked_example =
    check_unlock_rate_limit-locked (failed_at 1000 ∷ checked_at 1500 ∷ failed_at 2000 ∷ [])
      (3000 ∷ 4000 ∷ []) reset_state 5000 105_000 (omega arith) (omega arith)
