-- ===== src/AutoLock.antt =====
-- The inactivity lock (src/services/autoLock.ts). Its state is a value that each call returns; the interval
-- timer and the listeners are whether they are set, and which warning callback the interval was set with. The
-- clock `now` does not run backwards.
pub mod Timing
pub mod Reachable
use simply_sats.Prelude.{
  ℕ, ◌+◌, ◌-◌, ◌*◌, Bool, true, false, not, ◌&&◌, ◌||◌, Option, none, some, is_some, ltb, leb,
  if◌then◌else◌,
}

abbrev pub default_inactivity_limit : ℕ
default_inactivity_limit = 600000

abbrev pub warning_before_lock_ms : ℕ
warning_before_lock_ms = 30000

abbrev pub check_interval_ms : ℕ
check_interval_ms = 5000

-- `check_interval` is `some w` while the interval is set, `w` telling whether it has an `onWarning`.
pub record AutoLock : Type 0 where
  pub last_active_time : ℕ
  pub is_enabled : Bool
  pub is_paused : Bool
  pub inactivity_limit : ℕ
  pub check_interval : Option Bool
  pub has_listeners : Bool
  pub warning_fired : Bool

-- What a check calls.
pub data Alarm : Type 0 where
  quiet lock warning : Alarm

-- `now`: when the module is loaded.
unfoldable pub initial : ℕ → AutoLock
initial now = record {
  last_active_time = now;
  is_enabled = false;
  is_paused = false;
  inactivity_limit = default_inactivity_limit;
  check_interval = none;
  has_listeners = false;
  warning_fired = false;
}

unfoldable pub update_activity : ℕ → AutoLock → AutoLock
update_activity now s = record s { last_active_time = now; warning_fired = false }

-- The callback of the interval. `limit - 30_000` is only read above 30 seconds.
unfoldable pub check_inactivity : Bool → ℕ → AutoLock → Alarm × AutoLock
check_inactivity has_warning now s =
    if not s.is_enabled
    then (quiet, s)
    else if leb s.inactivity_limit (now - s.last_active_time)
    then (lock, record s { is_enabled = false })
    else if (has_warning && not s.warning_fired)
        && (ltb warning_before_lock_ms s.inactivity_limit
            && leb (s.inactivity_limit - warning_before_lock_ms) (now - s.last_active_time))
    then (warning, record s { warning_fired = true })
    else (quiet, s)

unfoldable pub stop_auto_lock : AutoLock → AutoLock
stop_auto_lock s = record s {
  is_enabled = false;
  is_paused = false;
  check_interval = none;
  has_listeners = false;
}

unfoldable pub init_auto_lock : ℕ → ℕ → Bool → AutoLock → AutoLock
unfolding stop_auto_lock
init_auto_lock now limit has_warning s = record (stop_auto_lock s) {
  is_paused = false;
  is_enabled = true;
  inactivity_limit = limit;
  last_active_time = now;
  warning_fired = false;
  has_listeners = true;
  check_interval = some has_warning;
}

unfoldable pub reset_inactivity_timer : ℕ → AutoLock → AutoLock
reset_inactivity_timer now s = record s { last_active_time = now }

unfoldable pub is_auto_lock_enabled : AutoLock → Bool
is_auto_lock_enabled s = s.is_enabled && not s.is_paused

-- `none` stands for -1.
unfoldable pub get_time_until_lock : ℕ → AutoLock → Option ℕ
get_time_until_lock now s =
    if not s.is_enabled || s.is_paused
    then none
    else some (s.inactivity_limit - (now - s.last_active_time))

unfoldable pub set_inactivity_limit : ℕ → AutoLock → AutoLock
set_inactivity_limit limit s = record s { inactivity_limit = limit }

unfoldable pub pause_auto_lock : AutoLock → AutoLock
pause_auto_lock s = record s { is_paused = true; check_interval = none }

unfoldable pub resume_auto_lock : ℕ → Bool → AutoLock → AutoLock
resume_auto_lock now has_warning s =
    if is_some s.check_interval
    then s
    else if not s.is_enabled && not s.is_paused
    then s
    else record s {
      is_enabled = true;
      is_paused = false;
      last_active_time = now;
      warning_fired = false;
      check_interval = some has_warning;
    }

abbrev pub minutes_to_ms : ℕ → ℕ
minutes_to_ms minutes = minutes * 60 * 1000

abbrev pub tick_of : Option Bool → ℕ → AutoLock → Alarm × AutoLock
unfolding check_inactivity
tick_of none now s = (quiet, s)
tick_of (some has_warning) now s = check_inactivity has_warning now s

-- A tick of the interval, where it is set.
unfoldable pub tick : ℕ → AutoLock → Alarm × AutoLock
unfolding check_inactivity
tick now s = tick_of s.check_interval now s

-- A user event, where the listeners are set.
unfoldable pub user_event : ℕ → AutoLock → AutoLock
unfolding update_activity
user_event now s = if s.has_listeners then update_activity now s else s
