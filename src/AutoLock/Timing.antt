-- ===== src/AutoLock/Timing.antt =====
-- When the wallet locks while nobody acts.
use simply_sats.Prelude.{
  ℕ, zero, suc, ◌+◌, ◌-◌, ◌*◌, ◌≤◌, ◌<◌, ◌≡◌, refl, ap, subst, ◌∙◌, Bool, true, false, List, [],
  ◌∷◌, Option, none, some, leb, leb_iff, Bool-cases, inl, inr, arith,
}
use simply_sats.AutoLock.{
  AutoLock, Alarm, quiet, lock, warning, check_inactivity, tick, tick_of, init_auto_lock,
  resume_auto_lock, pause_auto_lock, stop_auto_lock, user_event, check_interval_ms,
  warning_before_lock_ms,
}

abbrev noted : Alarm → ℕ → List (ℕ × Alarm) → List (ℕ × Alarm)
noted quiet t rest = rest
noted lock t rest = (t, lock) ∷ rest
noted warning t rest = (t, warning) ∷ rest

-- What `n` ticks of the interval call, the first of them at `t`, if nothing else happens.
unfoldable pub alarms : ℕ → ℕ → AutoLock → List (ℕ × Alarm)
unfolding tick
alarms zero t s = []
alarms (suc n) t s =
    let (alarm, s') = tick t s in noted alarm t (alarms n (t + check_interval_ms) s')

-- The first tick that is not before `due` is before `due` plus an interval.
abbrev pub IsFirstTick : ℕ → ℕ → Type 0
IsFirstTick due t = (due ≤ t) × (t < due + check_interval_ms)

alarms-step :
    (n t : ℕ) (s s' : AutoLock) (alarm : Alarm)
    → tick t s ≡ (alarm, s')
    → alarms (suc n) t s ≡ noted alarm t (alarms n (t + check_interval_ms) s')
unfolding alarms
alarms-step n t s s' alarm e = ap (λ r. noted r.0 t (alarms n (t + check_interval_ms) r.1)) e

tick_of-off :
    (c : Option Bool) (t : ℕ) (s : AutoLock) → s.is_enabled ≡ false → tick_of c t s ≡ (quiet, s)
unfolding check_inactivity
tick_of-off none t s off = refl
tick_of-off (some w) t s off = rw off

alarms-off : (n t : ℕ) (s : AutoLock) → s.is_enabled ≡ false → alarms n t s ≡ []
unfolding tick alarms
alarms-off zero t s off = refl
alarms-off (suc n) t s off =
    alarms-step n t s s quiet (tick_of-off s.check_interval t s off)
    ∙ alarms-off n (t + check_interval_ms) s off

-- One check of a lock that runs, by how long nobody has acted.
module _ (s : AutoLock) (w : Bool) (on : s.is_enabled ≡ true) (set : s.check_interval ≡ some w)
    (t : ℕ) (later : s.last_active_time ≤ t) where
  pub tick-lock :
      s.last_active_time + s.inactivity_limit ≤ t
      → tick t s ≡ (lock, record s { is_enabled = false })
  unfolding tick check_inactivity
  tick-lock due =
      rw (set, on, (leb_iff s.inactivity_limit (t - s.last_active_time)).1 (omega arith))

  tick-quiet :
      t + warning_before_lock_ms < s.last_active_time + s.inactivity_limit → tick t s ≡ (quiet, s)
  unfolding tick check_inactivity
  tick-quiet early = rw (set, on) (ground arith)

  tick-quiet_fired :
      s.warning_fired ≡ true → t < s.last_active_time + s.inactivity_limit → tick t s ≡ (quiet, s)
  unfolding tick check_inactivity
  tick-quiet_fired fired early = rw (set, on, fired) (ground arith)

  tick-warning :
      w ≡ true
      → s.warning_fired ≡ false
      → warning_before_lock_ms < s.inactivity_limit
      → s.last_active_time + s.inactivity_limit ≤ t + warning_before_lock_ms
      → t < s.last_active_time + s.inactivity_limit
      → tick t s ≡ (warning, record s { warning_fired = true })
  unfolding tick check_inactivity
  tick-warning calls fresh long near early = rw (set, on, fresh, calls) (ground arith)

-- When a lock that runs is due.
abbrev pub due : AutoLock → ℕ
due s = s.last_active_time + s.inactivity_limit

-- Once the warning was given, the lock is the one thing that follows.
pub alarms-fired :
    (n t : ℕ) (s : AutoLock) (w : Bool)
    → s.is_enabled ≡ true
    → s.check_interval ≡ some w
    → s.last_active_time ≤ t
    → s.warning_fired ≡ true
    → t < due s + check_interval_ms
    → due s + check_interval_ms ≤ t + n * check_interval_ms
    → (u : ℕ) × IsFirstTick (due s) u × (alarms n t s ≡ (u, lock) ∷ [])
unfolding alarms
alarms-fired zero t s w on set later fired near far = absurd (omega arith)
alarms-fired (suc n) t s w on set later fired near far = elim (Bool-cases (leb (due s) t)) [
  | inl e ↦
      let reached : due s ≤ t = (leb_iff (due s) t).0 e in
      (
        t,
        (reached, near),
        alarms-step n t s (record s { is_enabled = false }) lock
              (tick-lock s w on set t later reached)
            ∙ ap (λ rest. (t, lock) ∷ rest)
                (alarms-off n (t + check_interval_ms) (record s { is_enabled = false }) refl),
      )
  | inr e ↦
      let early : t < due s = ground (arith, e) in
      let (u, first, rest) =
        alarms-fired n (t + check_interval_ms) s w on set (omega arith) fired (omega arith)
          (omega arith) in
      (u, first, alarms-step n t s s quiet (tick-quiet_fired s w on set t later fired early) ∙ rest)
]

-- While nobody acts, a lock of more than 30 seconds that runs with a warning gives, from a tick that is less
-- than an interval behind the time of the warning on, exactly two signs, however many ticks follow the due
-- time: the warning, less than 5 seconds behind the 30 seconds before the due time, and the lock, less than 5
-- seconds behind the due time.
pub alarms-warning :
    (n t : ℕ) (s : AutoLock)
    → s.is_enabled ≡ true
    → s.check_interval ≡ some true
    → s.last_active_time ≤ t
    → s.warning_fired ≡ false
    → warning_before_lock_ms < s.inactivity_limit
    → t + warning_before_lock_ms < due s + check_interval_ms
    → due s + check_interval_ms ≤ t + n * check_interval_ms
    → (v : ℕ) × (u : ℕ) × IsFirstTick (due s) (v + warning_before_lock_ms)
      × IsFirstTick (due s) u
      × (alarms n t s ≡ (v, warning) ∷ (u, lock) ∷ [])
unfolding alarms
alarms-warning zero t s on set later fresh long near far = absurd (omega arith)
alarms-warning (suc n) t s on set later fresh long near far =
    elim (Bool-cases (leb (due s) (t + warning_before_lock_ms))) [
      | inl e ↦
          let close : due s ≤ t + warning_before_lock_ms =
            (leb_iff (due s) (t + warning_before_lock_ms)).0 e in
          let warned = record s { warning_fired = true } in
          let (u, first, rest) =
            alarms-fired n (t + check_interval_ms) warned true on set (omega arith) refl
              (omega arith) (omega arith) in
          (
            t,
            u,
            (close, near),
            first,
            alarms-step n t s warned warning
                  (tick-warning s true on set t later refl fresh long close (omega arith))
                ∙ ap (λ r. (t, warning) ∷ r) rest,
          )
      | inr e ↦
          let early : t + warning_before_lock_ms < due s = ground (arith, e) in
          let (v, u, first, second, rest) =
            alarms-warning n (t + check_interval_ms) s on set (omega arith) fresh long (omega arith)
              (omega arith) in
          (
            v,
            u,
            first,
            second,
            alarms-step n t s s quiet (tick-quiet s true on set t later early) ∙ rest,
          )
    ]

-- What a warning and a lock are due to after `now`, and what the ticks up to it call.
abbrev pub Alarms : ℕ → ℕ → ℕ → AutoLock → Type 0
Alarms now limit n s =
    (v : ℕ) × (u : ℕ) × IsFirstTick (now + limit) (v + warning_before_lock_ms)
    × IsFirstTick (now + limit) u
    × (alarms n (now + check_interval_ms) s ≡ (v, warning) ∷ (u, lock) ∷ [])

started-Alarms :
    (now limit n : ℕ) (s : AutoLock)
    → s.is_enabled ≡ true
    → s.check_interval ≡ some true
    → s.last_active_time ≡ now
    → s.inactivity_limit ≡ limit
    → s.warning_fired ≡ false
    → warning_before_lock_ms < limit
    → limit ≤ n * check_interval_ms
    → Alarms now limit n s
started-Alarms now limit n s on set last lim fresh long far =
    subst
      (λ d.
        (v : ℕ) × (u : ℕ) × IsFirstTick d (v + warning_before_lock_ms)
        × IsFirstTick d u
        × (alarms n (now + check_interval_ms) s ≡ (v, warning) ∷ (u, lock) ∷ []))
      (ap (λ a. a + s.inactivity_limit) last ∙ ap (λ l. now + l) lim)
      (alarms-warning n (now + check_interval_ms) s on set (omega arith) fresh (omega arith)
        (omega arith) (omega arith))

-- Started with a warning and a limit of more than 30 seconds, and left alone, the lock gives exactly two
-- signs, however many ticks follow: the warning less than 5 seconds behind the 30 seconds before the limit,
-- and the lock at the limit or less than 5 seconds behind it.
pub init_auto_lock-Alarms :
    (now limit n : ℕ) (s : AutoLock)
    → warning_before_lock_ms < limit
    → limit ≤ n * check_interval_ms
    → Alarms now limit n (init_auto_lock now limit true s)
unfolding init_auto_lock
init_auto_lock-Alarms now limit n s long far =
    started-Alarms now limit n (init_auto_lock now limit true s) refl refl refl refl refl long far

-- Pausing a lock that was stopped, and resuming it, starts it: with the old limit, and without the listeners,
-- so that nothing that the user does keeps the wallet from being locked when the limit is over.
pub resume_auto_lock-stopped :
    (now n t : ℕ) (s : AutoLock)
    → warning_before_lock_ms < s.inactivity_limit
    → s.inactivity_limit ≤ n * check_interval_ms
    → let r = resume_auto_lock now true (pause_auto_lock (stop_auto_lock s)) in
      (user_event t r ≡ r) × Alarms now s.inactivity_limit n r
unfolding resume_auto_lock pause_auto_lock stop_auto_lock user_event
resume_auto_lock-stopped now n t s long far = (
  refl,
  started-Alarms now s.inactivity_limit n
      (resume_auto_lock now true (pause_auto_lock (stop_auto_lock s))) refl refl refl refl refl long
      far,
)
