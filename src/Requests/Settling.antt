-- ===== src/Requests/Settling.antt =====
-- Each promise is pending or settled, once.
use simply_sats.Prelude.{
  ℕ, ◌+◌, ◌≤◌, ◌≡◌, refl, Bool, true, false, not, Option, none, some, List, [], ◌∷◌, arith, ◌==◌,
  if◌then◌else◌, length, filter, Option-cases, inl, inr,
}
use simply_sats.Dict.{
  Dict, lookup, insert, erase, HasDistinctKeys, insert-HasDistinctKeys, erase-HasDistinctKeys,
  filter-HasDistinctKeys, length-insert, length-erase, length-filter-le,
}
use simply_sats.Requests.Manager.{
  Manager, PendingRequest, Event, resolved, rejected, notified, Reason, Call, adds, removes,
  resolves, rejects, cleans, destroys, handles, add, remove, resolve, reject, cleanup, destroy,
  step, reject_all, is_stale, settle, set_request_handler, notify,
}

-- The map has distinct keys, and never more than 100 entries.
pub record IsBounded (m : Manager) : Type 0 where
  pub keys : HasDistinctKeys m.pending
  pub size : length m.pending ≤ 100

settle-IsBounded :
    (id : ℕ) (event : ℕ → Event) (o : Option PendingRequest) (m : Manager)
    → IsBounded m
    → IsBounded (settle id event o m)
settle-IsBounded id event none m b = b
settle-IsBounded id event (some p) m b = record {
  keys = erase-HasDistinctKeys id m.pending b.keys;
  size = ground (arith, b.size, length-erase id m.pending);
}

-- Every call keeps the keys distinct and the number of pending requests at 100 or less.
pub step-IsBounded : (m : Manager) (c : Call) → IsBounded m → IsBounded (step m c)
unfolding step add remove resolve reject cleanup destroy set_request_handler
step-IsBounded m (adds id p) b = record {
  keys = ground (arith, b.keys, insert-HasDistinctKeys id p m.pending);
  size = ground (arith, b.size, length-insert id p m.pending);
}
step-IsBounded m (removes id) b = record {
  keys = erase-HasDistinctKeys id m.pending b.keys;
  size = ground (arith, b.size, length-erase id m.pending);
}
step-IsBounded m (resolves id response) b = settle-IsBounded id _ (lookup id m.pending) m b
step-IsBounded m (rejects id error) b = settle-IsBounded id _ (lookup id m.pending) m b
step-IsBounded m (cleans now) b = record {
  keys = filter-HasDistinctKeys _ m.pending b.keys;
  size = omega (arith, b.size, length-filter-le (λ e. not (is_stale now m.ttl_ms e)) m.pending);
}
step-IsBounded m destroys b = record { keys = tt; size = omega arith }
step-IsBounded m handles b = record { keys = b.keys; size = b.size }

-- How often a promise waits in the map, and how often it was settled.
abbrev pub waiting : ℕ → Dict PendingRequest → ℕ
waiting k [] = 0
waiting k ((id, p) ∷ d) = (if p.promise == k then 1 else 0) + waiting k d

abbrev pub settled : ℕ → List Event → ℕ
settled k [] = 0
settled k (resolved j r ∷ log) = (if j == k then 1 else 0) + settled k log
settled k (rejected j r ∷ log) = (if j == k then 1 else 0) + settled k log
settled k (notified r ∷ log) = settled k log

abbrev pub accounted : ℕ → Manager → ℕ
accounted k m = waiting k m.pending + settled k m.log

-- How often a call brings the promise in.
abbrev pub brings : ℕ → Call → ℕ
brings k (adds id p) = if p.promise == k then 1 else 0
brings k _ = 0

-- A call that neither removes a request unanswered nor adds one under an id that is pending.
abbrev pub IsOrderly : Manager → Call → Type 0
IsOrderly m (adds id p) = lookup id m.pending ≡ none
IsOrderly m (removes id) = ⊥
IsOrderly m _ = Unit

waiting-insert :
    (k id : ℕ) (p : PendingRequest) (d : Dict PendingRequest)
    → lookup id d ≡ none
    → waiting k (insert id p d) ≡ waiting k d + (if p.promise == k then 1 else 0)
waiting-insert k id p [] h = ground arith
waiting-insert k id p ((j, q) ∷ d) h = ground (arith, waiting-insert k id p d)

waiting-erase :
    (k id : ℕ) (p : PendingRequest) (d : Dict PendingRequest)
    → lookup id d ≡ some p
    → waiting k (erase id d) + (if p.promise == k then 1 else 0) ≡ waiting k d
waiting-erase k id p [] h = ground arith
waiting-erase k id p ((j, q) ∷ d) h = ground (arith, waiting-erase k id p d)

waiting-split :
    (k : ℕ) (p : ℕ × PendingRequest → Bool) (d : Dict PendingRequest)
    → waiting k (filter p d) + waiting k (filter (λ e. not (p e)) d) ≡ waiting k d
waiting-split k p [] = refl
waiting-split k p (e ∷ d) = ground (arith, waiting-split k p d)

settled-reject_all :
    (k : ℕ) (why : Reason) (d : Dict PendingRequest) (log : List Event)
    → settled k (reject_all why d log) ≡ waiting k d + settled k log
settled-reject_all k why [] log = omega arith
settled-reject_all k why ((j, q) ∷ d) log =
    omega (arith, settled-reject_all k why d (rejected q.promise why ∷ log))

settled-notify :
    (k r : ℕ) (b : Bool) (log : List Event) → settled k (notify r b log) ≡ settled k log
settled-notify k r true log = refl
settled-notify k r false log = refl

-- An orderly call loses no promise and settles none twice: the number of times that a promise is
-- pending or settled grows by the times that the call brings it in.
pub step-accounted :
    (k : ℕ) (m : Manager) (c : Call)
    → IsOrderly m c
    → accounted k (step m c) ≡ accounted k m + brings k c
unfolding step add resolve reject cleanup destroy set_request_handler
step-accounted k m (adds id p) h =
    ground
      (arith, waiting-insert k id p m.pending h, settled-notify k p.request m.has_handler m.log)
step-accounted k m (removes id) h = absurd h
step-accounted k m (resolves id response) h = elim (Option-cases (lookup id m.pending)) [
  | inl e ↦ rw e (omega arith)
  | inr (p, e) ↦ rw e (omega (arith, waiting-erase k id p m.pending e))
]
step-accounted k m (rejects id error) h = elim (Option-cases (lookup id m.pending)) [
  | inl e ↦ rw e (omega arith)
  | inr (p, e) ↦ rw e (omega (arith, waiting-erase k id p m.pending e))
]
step-accounted k m (cleans now) h = omega (
  arith,
  waiting-split k (is_stale now m.ttl_ms) m.pending,
  settled-reject_all k Reason.timed_out (filter (is_stale now m.ttl_ms) m.pending) m.log,
)
step-accounted k m destroys h = omega (arith, settled-reject_all k Reason.destroyed m.pending m.log)
step-accounted k m handles h = omega arith
