-- ===== src/RateLimiter.antt =====
-- The limit on unlock attempts (src/services/rateLimiter.ts). The counter is the Rust backend's; when
-- a command of it throws (`none`), the front end counts in `fallbackState`. `now` is the clock.
pub mod Lockout
use simply_sats.Prelude.{
  ℕ, ◌+◌, ◌-◌, ◌*◌, Bool, true, false, ◌&&◌, not, Option, none, some, ltb, leb, ◌==◌, if◌then◌else◌,
}

abbrev pub max_attempts : ℕ
max_attempts = 5

-- `5 * 60 * 1000`
abbrev pub fallback_lockout_ms : ℕ
fallback_lockout_ms = 300_000

pub record FallbackState : Type 0 where
  pub attempts : ℕ
  pub lockout_until : ℕ

pub record RateLimit : Type 0 where
  pub is_limited : Bool
  pub remaining_ms : ℕ

pub record FailedAttempt : Type 0 where
  pub is_locked : Bool
  pub lockout_ms : ℕ
  pub attempts_remaining : ℕ

abbrev pub reset_state : FallbackState
reset_state = record { attempts = 0; lockout_until = 0 }

-- `now > lockoutUntil && lockoutUntil !== 0`
abbrev pub expire : ℕ → FallbackState → FallbackState
expire now s = if ltb s.lockout_until now && not (s.lockout_until == 0) then reset_state else s

-- What the expired state tells.
abbrev pub limit_of : ℕ → FallbackState → RateLimit
limit_of now s = record {
  is_limited = leb max_attempts s.attempts;
  remaining_ms = if leb max_attempts s.attempts then s.lockout_until - now else 0;
}

unfoldable pub check_unlock_rate_limit :
    Option RateLimit → ℕ → FallbackState → RateLimit × FallbackState
check_unlock_rate_limit (some response) now s = (response, s)
check_unlock_rate_limit none now s = (limit_of now (expire now s), expire now s)

-- The attempt that comes after `attempts` of them.
abbrev pub count_attempt : ℕ → FallbackState → FailedAttempt × FallbackState
count_attempt now s =
    let locks : Bool = leb max_attempts (s.attempts + 1) in
    (
      record {
        is_locked = locks;
        lockout_ms = if locks then fallback_lockout_ms else 0;
        attempts_remaining = max_attempts - (s.attempts + 1);
      },
      record {
        attempts = s.attempts + 1;
        lockout_until = if locks then now + fallback_lockout_ms else s.lockout_until;
      },
    )

unfoldable pub record_failed_unlock_attempt :
    Option FailedAttempt → ℕ → FallbackState → FailedAttempt × FallbackState
record_failed_unlock_attempt (some response) now s = (response, s)
record_failed_unlock_attempt none now s = count_attempt now s

-- The fallback is reset whether the backend answers or not.
unfoldable pub record_successful_unlock : FallbackState → FallbackState
record_successful_unlock s = reset_state

unfoldable pub get_remaining_attempts : Option ℕ → ℕ
get_remaining_attempts (some remaining) = remaining
get_remaining_attempts none = max_attempts
