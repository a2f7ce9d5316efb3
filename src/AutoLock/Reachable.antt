-- ===== src/AutoLock/Reachable.antt =====
-- What holds of the lock whatever is called, and in which order.
use simply_sats.Prelude.{
  ℕ, ◌+◌, ◌-◌, ◌≤◌, ◌≡◌, refl, Bool, true, false, not, ◌&&◌, ◌||◌, Option, none, some, is_some,
  arith,
}
use simply_sats.AutoLock.Timing.{tick-lock}
use simply_sats.AutoLock.{
  quiet, lock, AutoLock, initial, check_inactivity, tick, init_auto_lock, stop_auto_lock,
  reset_inactivity_timer, set_inactivity_limit, pause_auto_lock, resume_auto_lock, user_event,
  update_activity, is_auto_lock_enabled, get_time_until_lock,
}

-- What the app, the user and the timer do.
pub data Call : Type 0 where
  init : ℕ → Bool → Call
  resume : Bool → Call
  set_limit : ℕ → Call
  stop pause reset event check : Call

unfoldable pub call : ℕ → Call → AutoLock → AutoLock
unfolding init_auto_lock stop_auto_lock resume_auto_lock set_inactivity_limit pause_auto_lock
    reset_inactivity_timer user_event tick
call now (init limit w) s = init_auto_lock now limit w s
call now (resume w) s = resume_auto_lock now w s
call now (set_limit limit) s = set_inactivity_limit limit s
call now stop s = stop_auto_lock s
call now pause s = pause_auto_lock s
call now reset s = reset_inactivity_timer now s
call now event s = user_event now s
call now check s = (tick now s).1

-- The states at a time, under calls one after the other.
pub data Reach : ℕ → AutoLock → Type 0 where
  loaded : (now : ℕ) → Reach now (initial now)
  called :
      {t : ℕ} {s : AutoLock} (now : ℕ) (c : Call) → Reach t s → t ≤ now → Reach now (call now c s)

pub record IsSound (now : ℕ) (s : AutoLock) : Type 0 where
  pub past : s.last_active_time ≤ now
  pub watched : (s.is_enabled && not s.is_paused) ≡ true → is_some s.check_interval ≡ true
  pub silent : s.is_paused ≡ true → s.check_interval ≡ none
  pub heard :
      s.has_listeners ≡ true → (s.is_enabled || s.is_paused) || is_some s.check_interval ≡ true

call-IsSound :
    (t now : ℕ) (c : Call) (s : AutoLock) → t ≤ now → IsSound t s → IsSound now (call now c s)
unfolding call init_auto_lock stop_auto_lock resume_auto_lock set_inactivity_limit pause_auto_lock
    reset_inactivity_timer user_event update_activity tick check_inactivity
call-IsSound t now (init limit w) s h k = ground arith
call-IsSound t now (resume w) s h k = ground arith
call-IsSound t now (set_limit limit) s h k = ground arith
call-IsSound t now stop s h k = ground arith
call-IsSound t now pause s h k = ground arith
call-IsSound t now reset s h k = ground arith
call-IsSound t now event s h k = ground arith
call-IsSound t now check s h k = ground arith

initial-IsSound : (now : ℕ) → IsSound now (initial now)
unfolding initial
initial-IsSound now = ground arith

pub Reach-IsSound : {now : ℕ} {s : AutoLock} → Reach now s → IsSound now s
Reach-IsSound (loaded now) = initial-IsSound now
Reach-IsSound (called now c r h) = call-IsSound _ now c _ h (Reach-IsSound r)

some-value : (o : Option Bool) → is_some o ≡ true → (w : Bool) × (o ≡ some w)
some-value none h = absurd (ground arith)
some-value (some w) h = (w, refl)

enabled-parts : (a b : Bool) → (a && not b) ≡ true → (a ≡ true) × (b ≡ false)
enabled-parts true true h = absurd (ground arith)
enabled-parts true false h = (refl, refl)
enabled-parts false b h = absurd (ground arith)

-- In every state that can be reached in which the lock says that it is enabled, it tells a time left, at most
-- the limit, and a check once that time is over, now or more later, locks, if nothing happened before.
pub Reach-IsGuarded :
    (now : ℕ) (s : AutoLock) (r : Reach now s) (more : ℕ)
    → is_auto_lock_enabled s ≡ true
    → (left : ℕ) × (get_time_until_lock now s ≡ some left)
      × (left ≤ s.inactivity_limit)
      × (tick (now + left + more) s ≡ (lock, record s { is_enabled = false }))
unfolding is_auto_lock_enabled get_time_until_lock
Reach-IsGuarded now s r more e =
    let sound = Reach-IsSound r in
    let (on, running) = enabled-parts s.is_enabled s.is_paused e in
    let (w, set) = some-value s.check_interval (sound.watched e) in
    let left = s.inactivity_limit - (now - s.last_active_time) in
    (
      left,
      rw (on, running),
      omega arith,
      tick-lock s w on set (now + left + more) (omega (arith, sound.past))
          (omega (arith, sound.past)),
    )

-- While the lock is paused, no tick does anything.
Reach-silent :
    (now : ℕ) (s : AutoLock) (r : Reach now s) (later : ℕ)
    → s.is_paused ≡ true
    → tick later s ≡ (quiet, s)
unfolding tick
Reach-silent now s r later p = rw ((Reach-IsSound r).silent p)
