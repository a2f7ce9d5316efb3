-- ===== src/Requests/Manager.antt =====
-- The class `RequestManager`. A request's callbacks `resolve` and `reject` settle one promise, which
-- a number names; `log` is what the manager has called, newest first. The timer that calls `cleanup`
-- is the environment's: `cleanup` takes the clock.
use simply_sats.Prelude.{
  ℕ, ◌+◌, Bool, true, false, not, Option, none, some, List, [], ◌∷◌, map, ltb, leb, if◌then◌else◌,
  length, filter,
}
use simply_sats.Dict.{Dict, lookup, has, insert, erase}

abbrev pub max_pending_requests : ℕ
max_pending_requests = 100

pub record PendingRequest : Type 0 where
  pub request : ℕ
  pub promise : ℕ
  pub expected_identity_pub_key : Option ℕ
  pub created_at : ℕ

pub data Reason : Type 0 where
  too_many timed_out destroyed : Reason
  given : ℕ → Reason

pub data Event : Type 0 where
  -- `pending.resolve(response)`, `pending.reject(error)`
  resolved : ℕ → ℕ → Event
  rejected : ℕ → Reason → Event
  -- `requestCallback(request)`
  notified : ℕ → Event

pub record Manager : Type 0 where
  pub pending : Dict PendingRequest
  pub has_handler : Bool
  pub ttl_ms : ℕ
  pub log : List Event

unfoldable pub new_manager : ℕ → Manager
new_manager ttl_ms = record { pending = []; has_handler = false; ttl_ms = ttl_ms; log = [] }

unfoldable pub set_request_handler : Manager → Manager
set_request_handler m = record m { has_handler = true }

abbrev pub notify : ℕ → Bool → List Event → List Event
notify request true log = notified request ∷ log
notify request false log = log

unfoldable pub add : ℕ → PendingRequest → Manager → Manager
add id p m =
    if leb max_pending_requests (length m.pending)
    then record m { log = rejected p.promise too_many ∷ m.log }
    else record m { pending = insert id p m.pending; log = notify p.request m.has_handler m.log }

unfoldable pub get : ℕ → Manager → Option PendingRequest
get id m = lookup id m.pending

unfoldable pub remove : ℕ → Manager → Bool × Manager
remove id m = (has id m.pending, record m { pending = erase id m.pending })

unfoldable pub get_all : Manager → List ℕ
get_all m = map (λ e. e.1.request) m.pending

-- `if (pending) { …; this.pending.delete(id) }`
abbrev pub settle : ℕ → (ℕ → Event) → Option PendingRequest → Manager → Manager
settle id event none m = m
settle id event (some p) m = record m {
  pending = erase id m.pending;
  log = event p.promise ∷ m.log;
}

unfoldable pub resolve : ℕ → ℕ → Manager → Manager
resolve id response m = settle id (λ k. resolved k response) (lookup id m.pending) m

unfoldable pub reject : ℕ → ℕ → Manager → Manager
reject id error m = settle id (λ k. rejected k (given error)) (lookup id m.pending) m

-- `now - pending.createdAt > this.ttlMs`
abbrev pub is_stale : ℕ → ℕ → ℕ × PendingRequest → Bool
is_stale now ttl_ms e = ltb (e.1.created_at + ttl_ms) now

-- The entries' promises rejected one after another.
abbrev pub reject_all : Reason → Dict PendingRequest → List Event → List Event
reject_all why [] log = log
reject_all why ((id, p) ∷ d) log = reject_all why d (rejected p.promise why ∷ log)

unfoldable pub cleanup : ℕ → Manager → Manager
cleanup now m = record m {
  pending = filter (λ e. not (is_stale now m.ttl_ms e)) m.pending;
  log = reject_all timed_out (filter (is_stale now m.ttl_ms) m.pending) m.log;
}

unfoldable pub destroy : Manager → Manager
destroy m = record m { pending = []; log = reject_all destroyed m.pending m.log }

-- The calls that change the state.
pub data Call : Type 0 where
  adds : ℕ → PendingRequest → Call
  removes : ℕ → Call
  resolves rejects : ℕ → ℕ → Call
  cleans : ℕ → Call
  destroys handles : Call

unfoldable pub step : Manager → Call → Manager
step m (adds id p) = add id p m
step m (removes id) = (remove id m).1
step m (resolves id response) = resolve id response m
step m (rejects id error) = reject id error m
step m (cleans now) = cleanup now m
step m destroys = destroy m
step m handles = set_request_handler m

unfoldable pub run : Manager → List Call → Manager
unfolding step
run m [] = m
run m (c ∷ cs) = run (step m c) cs
