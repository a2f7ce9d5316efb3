-- ===== src/Sync/Mutex.antt =====
-- The class `SyncMutex` and `isSyncInProgress`. Each call of `acquire` is a ticket; it waits for the
-- promise of the ticket before it (`_tail`), and its own is resolved by the release function. The
-- scheduler of the promises is the environment: it chooses the next step.
use simply_sats.Prelude.{
  ℕ, zero, suc, ◌≡◌, Bool, true, false, Option, none, some, List, [], ◌∷◌, ◌++◌, any,
}
use simply_sats.Dict.{Dict, lookup}

-- Waiting in `await prev`, past it, or with its promise resolved.
pub data Ticket : Type 0 where
  waiting holding released : Ticket

-- The tickets in the order of their calls, and `_locked`.
pub record SyncMutex : Type 0 where
  pub tickets : List Ticket
  pub locked : Bool

unfoldable pub new_mutex : SyncMutex
new_mutex = record { tickets = []; locked = false }

-- The call, up to its `await`.
unfoldable pub acquire : SyncMutex → SyncMutex
acquire m = record m { tickets = m.tickets ++ waiting ∷ [] }

abbrev pub is_released : Ticket → Bool
is_released released = true
is_released _ = false

abbrev pub cons_to : Ticket → Option (List Ticket) → Option (List Ticket)
cons_to t none = none
cons_to t (some ts) = some (t ∷ ts)

-- The `await` of the n-th ticket ends; `prev` is whether the promise before the list is resolved.
unfoldable pub resume : ℕ → Bool → List Ticket → Option (List Ticket)
resume n prev [] = none
resume zero true (waiting ∷ ts) = some (holding ∷ ts)
resume zero _ (t ∷ ts) = none
resume (suc n) prev (t ∷ ts) = cons_to t (resume n (is_released t) ts)

-- The release function of the n-th ticket, which only a ticket past its `await` was given; it can
-- be called again.
unfoldable pub release : ℕ → List Ticket → Option (List Ticket)
release n [] = none
release zero (waiting ∷ ts) = none
release zero (t ∷ ts) = some (released ∷ ts)
release (suc n) (t ∷ ts) = cons_to t (release n ts)

pub data Step : SyncMutex → SyncMutex → Type 0 where
  acquires : (m : SyncMutex) → Step m (acquire m)
  resumes :
      (m : SyncMutex) (n : ℕ) (ts : List Ticket)
      → resume n true m.tickets ≡ some ts
      → Step m (record { tickets = ts; locked = true })
  releases :
      (m : SyncMutex) (n : ℕ) (ts : List Ticket)
      → release n m.tickets ≡ some ts
      → Step m (record { tickets = ts; locked = false })

pub data Reach (s : SyncMutex) : SyncMutex → Type 0 where
  here : Reach s s
  next : {t u : SyncMutex} → Reach s t → Step t u → Reach s u

-- `syncMutexes` is a map from accounts.
unfoldable pub is_sync_in_progress : Option ℕ → Dict SyncMutex → Bool
is_sync_in_progress none mutexes = any (λ e. e.1.locked) mutexes
is_sync_in_progress (some account) mutexes = elim (lookup account mutexes) [
  | none ↦ false
  | some m ↦ m.locked
]
