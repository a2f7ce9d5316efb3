-- ===== src/RateLimiter/Lockout.antt =====
-- The lockout of the fallback.
use simply_sats.Prelude.{
  ℕ, suc, ◌+◌, ◌-◌, ◌≤◌, ◌≡◌, refl, true, false, none, List, [], ◌∷◌, length, arith, leb,
  if◌then◌else◌,
}
use simply_sats.RateLimiter.{
  FallbackState, reset_state, expire, count_attempt, check_unlock_rate_limit,
  record_failed_unlock_attempt, record_successful_unlock,
}

-- Failed attempts at the given times, while the backend is away.
abbrev pub fail_at : List ℕ → FallbackState → FallbackState
fail_at [] s = s
fail_at (t ∷ ts) s = fail_at ts (record_failed_unlock_attempt none t s).1

fail_at-attempts :
    (ts : List ℕ) (s : FallbackState) → (fail_at ts s).attempts ≡ length ts + s.attempts
unfolding record_failed_unlock_attempt
fail_at-attempts [] s = omega arith
fail_at-attempts (t ∷ ts) s = omega (arith, fail_at-attempts ts (count_attempt t s).1)

-- A failed attempt or a check of the limit, at a time.
pub data UnlockEvent : Type 0 where
  failed_at checked_at : ℕ → UnlockEvent

abbrev pub after_events : List UnlockEvent → FallbackState → FallbackState
after_events [] s = s
after_events (failed_at t ∷ es) s = after_events es (record_failed_unlock_attempt none t s).1
after_events (checked_at t ∷ es) s = after_events es (check_unlock_rate_limit none t s).1

abbrev pub failures : List UnlockEvent → ℕ
failures [] = 0
failures (failed_at t ∷ es) = suc (failures es)
failures (checked_at t ∷ es) = failures es

-- Up to four failures set no lockout, so the checks among them change nothing.
after_events-attempts :
    (es : List UnlockEvent) (s : FallbackState)
    → s.lockout_until ≡ 0
    → s.attempts + failures es ≤ 4
    → (after_events es s).attempts ≡ s.attempts + failures es
unfolding record_failed_unlock_attempt check_unlock_rate_limit
after_events-attempts [] s z h = omega arith
after_events-attempts (failed_at t ∷ es) s z h =
    ground (arith, after_events-attempts es (count_attempt t s).1, z, h)
after_events-attempts (checked_at t ∷ es) s z h =
    ground (arith, after_events-attempts es (expire t s), z, h)

-- While the backend is away, the fifth failure since the last success locks, whatever checks of the limit
-- come before it, and so does every later one, if no check of the limit comes between it and the fifth.
-- Locked means: the attempt is answered as locked, a check within five minutes of it reports the rest of
-- the five minutes, and a later check reports no limit and starts over.
pub check_unlock_rate_limit-locked :
    (es : List UnlockEvent) (ts : List ℕ) (s : FallbackState) (t now : ℕ)
    → failures es ≤ 4
    → 4 ≤ failures es + length ts
    → let (answer, locked) =
        record_failed_unlock_attempt none t
          (fail_at ts (after_events es (record_successful_unlock s))) in
      (answer.is_locked ≡ true)
      × (answer.attempts_remaining ≡ 0)
      × (check_unlock_rate_limit none now locked ≡ (
          if leb now (t + 300_000)
          then (record { is_limited = true; remaining_ms = t + 300_000 - now }, locked)
          else (record { is_limited = false; remaining_ms = 0 }, reset_state)))
unfolding record_failed_unlock_attempt check_unlock_rate_limit record_successful_unlock
check_unlock_rate_limit-locked es ts s t now few h =
    let e = fail_at-attempts ts (after_events es reset_state) in
    let f = after_events-attempts es reset_state refl (omega (arith, few)) in
    (ground (arith, e, f, h), ground (arith, e, f, h), ground (arith, e, f, h))
