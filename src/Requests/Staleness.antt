-- ===== src/Requests/Staleness.antt =====
-- Histories of calls, and what the cleanup lets stand.
use simply_sats.Prelude.{ℕ, ◌≡◌, not, List, [], ◌∷◌, arith}
use simply_sats.Dict.{kept, lookup-filter}
use simply_sats.Requests.Manager.{Manager, Call, new_manager, get, cleanup, is_stale, step, run}
use simply_sats.Requests.Settling.{IsBounded, step-IsBounded}

run-IsBounded : (cs : List Call) (m : Manager) → IsBounded m → IsBounded (run m cs)
unfolding run
run-IsBounded [] m b = b
run-IsBounded (c ∷ cs) m b = run-IsBounded cs (step m c) (step-IsBounded m c b)

-- Whatever is called, a manager never holds more than 100 requests, and no id twice.
pub new_manager-IsBounded : (ttl_ms : ℕ) (cs : List Call) → IsBounded (run (new_manager ttl_ms) cs)
unfolding new_manager
new_manager-IsBounded ttl_ms cs =
    run-IsBounded cs (new_manager ttl_ms) (record { keys = tt; size = omega arith })

-- After a cleanup a request is found exactly if it was there and is not older than the time limit.
get-cleanup_stale :
    (now id : ℕ) (m : Manager)
    → IsBounded m
    → get id (cleanup now m) ≡ kept (λ e. not (is_stale now m.ttl_ms e)) id (get id m)
unfolding get cleanup
get-cleanup_stale now id m b =
    lookup-filter (λ e. not (is_stale now m.ttl_ms e)) id m.pending b.keys
