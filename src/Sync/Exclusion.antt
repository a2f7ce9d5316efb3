-- ===== src/Sync/Exclusion.antt =====
-- Mutual exclusion in the order of the calls.
use simply_sats.Prelude.{
  ℕ, zero, suc, ◌≡◌, refl, Bool, true, false, Option, none, some, List, [], ◌∷◌, ◌++◌, any, arith,
  subst,
}
use simply_sats.Sync.Mutex.{
  Ticket, waiting, holding, released, SyncMutex, new_mutex, acquire, cons_to, resume, release, Step,
  acquires, resumes, releases, Reach, here, next,
}

abbrev pub AllWaiting : List Ticket → Type 0
AllWaiting [] = Unit
AllWaiting (waiting ∷ ts) = AllWaiting ts
AllWaiting (holding ∷ ts) = ⊥
AllWaiting (released ∷ ts) = ⊥

-- First the released tickets, then at most one that holds the lock, then those that wait.
abbrev pub IsInTurn : List Ticket → Type 0
IsInTurn [] = Unit
IsInTurn (released ∷ ts) = IsInTurn ts
IsInTurn (holding ∷ ts) = AllWaiting ts
IsInTurn (waiting ∷ ts) = AllWaiting ts

abbrev pub is_holding : Ticket → Bool
is_holding holding = true
is_holding _ = false

AllWaiting-IsInTurn : (ts : List Ticket) → AllWaiting ts → IsInTurn ts
AllWaiting-IsInTurn [] h = tt
AllWaiting-IsInTurn (waiting ∷ ts) h = h
AllWaiting-IsInTurn (holding ∷ ts) h = absurd h
AllWaiting-IsInTurn (released ∷ ts) h = absurd h

AllWaiting-append : (ts : List Ticket) → AllWaiting ts → AllWaiting (ts ++ waiting ∷ [])
AllWaiting-append [] h = tt
AllWaiting-append (waiting ∷ ts) h = AllWaiting-append ts h
AllWaiting-append (holding ∷ ts) h = absurd h
AllWaiting-append (released ∷ ts) h = absurd h

IsInTurn-append : (ts : List Ticket) → IsInTurn ts → IsInTurn (ts ++ waiting ∷ [])
IsInTurn-append [] h = tt
IsInTurn-append (released ∷ ts) h = IsInTurn-append ts h
IsInTurn-append (holding ∷ ts) h = AllWaiting-append ts h
IsInTurn-append (waiting ∷ ts) h = AllWaiting-append ts h

-- What an option satisfies when there is something.
abbrev IfSome : (List Ticket → Type 0) → Option (List Ticket) → Type 0
IfSome P none = Unit
IfSome P (some ts) = P ts

IfSome-cons_to :
    (P Q : List Ticket → Type 0) (t : Ticket) (o : Option (List Ticket))
    → ((ts : List Ticket) → P ts → Q (t ∷ ts))
    → IfSome P o
    → IfSome Q (cons_to t o)
IfSome-cons_to P Q t none f h = tt
IfSome-cons_to P Q t (some ts) f h = f ts h

-- While the ticket before waits or holds the lock, no ticket behind it goes on.
resume-none : (n : ℕ) (ts : List Ticket) → AllWaiting ts → resume n false ts ≡ none
unfolding resume
resume-none n [] h = refl
resume-none zero (waiting ∷ ts) h = refl
resume-none (suc n) (waiting ∷ ts) h = rw (resume-none n ts h) refl
resume-none zero (holding ∷ ts) h = absurd h
resume-none zero (released ∷ ts) h = absurd h
resume-none (suc n) (holding ∷ ts) h = absurd h
resume-none (suc n) (released ∷ ts) h = absurd h

release-none : (n : ℕ) (ts : List Ticket) → AllWaiting ts → release n ts ≡ none
unfolding release
release-none n [] h = refl
release-none zero (waiting ∷ ts) h = refl
release-none (suc n) (waiting ∷ ts) h = rw (release-none n ts h) refl
release-none zero (holding ∷ ts) h = absurd h
release-none zero (released ∷ ts) h = absurd h
release-none (suc n) (holding ∷ ts) h = absurd h
release-none (suc n) (released ∷ ts) h = absurd h

-- A list in turn that has a holding ticket, if it has one at all behind released ones.
abbrev IsHeld : List Ticket → Type 0
IsHeld ts = IsInTurn ts × (any is_holding ts ≡ true)

resume-IsHeld : (n : ℕ) (ts : List Ticket) → IsInTurn ts → IfSome IsHeld (resume n true ts)
unfolding resume
resume-IsHeld n [] h = tt
resume-IsHeld zero (waiting ∷ ts) h = (h, refl)
resume-IsHeld zero (holding ∷ ts) h = tt
resume-IsHeld zero (released ∷ ts) h = tt
resume-IsHeld (suc n) (waiting ∷ ts) h = rw (resume-none n ts h) tt
resume-IsHeld (suc n) (holding ∷ ts) h = rw (resume-none n ts h) tt
resume-IsHeld (suc n) (released ∷ ts) h =
    IfSome-cons_to IsHeld IsHeld released (resume n true ts) (λ us k. k) (resume-IsHeld n ts h)

release-IsInTurn : (n : ℕ) (ts : List Ticket) → IsInTurn ts → IfSome IsInTurn (release n ts)
unfolding release
release-IsInTurn n [] h = tt
release-IsInTurn zero (waiting ∷ ts) h = tt
release-IsInTurn zero (holding ∷ ts) h = AllWaiting-IsInTurn ts h
release-IsInTurn zero (released ∷ ts) h = h
release-IsInTurn (suc n) (waiting ∷ ts) h = rw (release-none n ts h) tt
release-IsInTurn (suc n) (holding ∷ ts) h = rw (release-none n ts h) tt
release-IsInTurn (suc n) (released ∷ ts) h =
    IfSome-cons_to IsInTurn IsInTurn released (release n ts) (λ us k. k) (release-IsInTurn n ts h)

any-append : (ts : List Ticket) → any is_holding (ts ++ waiting ∷ []) ≡ any is_holding ts
any-append [] = refl
any-append (t ∷ ts) = ground (arith, any-append ts)

-- The tickets are in turn, and the flag is set only while one of them holds the lock.
pub record IsSound (m : SyncMutex) : Type 0 where
  pub turn : IsInTurn m.tickets
  pub honest : m.locked ≡ true → any is_holding m.tickets ≡ true

Step-IsSound : {m m' : SyncMutex} → Step m m' → IsSound m → IsSound m'
unfolding acquire
Step-IsSound (acquires m) s = record {
  turn = IsInTurn-append m.tickets s.turn;
  honest = λ h. rw (any-append m.tickets) (s.honest h);
}
Step-IsSound (resumes m n ts e) s =
    let held = subst (IfSome IsHeld) e (resume-IsHeld n m.tickets s.turn) in
    record { turn = held.0; honest = λ _. held.1 }
Step-IsSound (releases m n ts e) s = record {
  turn = subst (IfSome IsInTurn) e (release-IsInTurn n m.tickets s.turn);
  honest = λ h. absurd (ground (arith, h));
}

-- Under every schedule the tickets get the lock one at a time, in the order of their calls, and
-- the flag that tells of a sync is set only while some ticket holds the lock.
pub Reach-IsSound : {m : SyncMutex} → Reach new_mutex m → IsSound m
unfolding new_mutex
Reach-IsSound here = record { turn = tt; honest = λ h. absurd (ground (arith, h)) }
Reach-IsSound (next r s) = Step-IsSound s (Reach-IsSound r)

abbrev pub is_waiting : Ticket → Bool
is_waiting waiting = true
is_waiting _ = false

resume-enabled :
    (ts : List Ticket)
    → IsInTurn ts
    → any is_holding ts ≡ false
    → any is_waiting ts ≡ true
    → (n : ℕ) × (us : List Ticket) × (resume n true ts ≡ some us)
unfolding resume
resume-enabled [] h free some_wait = absurd (ground (arith, some_wait))
resume-enabled (waiting ∷ ts) h free some_wait = (zero, holding ∷ ts, refl)
resume-enabled (holding ∷ ts) h free some_wait = absurd (ground (arith, free))
resume-enabled (released ∷ ts) h free some_wait =
    let (n, us, e) = resume-enabled ts h free some_wait in (suc n, released ∷ us, rw e refl)

-- A free lock is not lost: as long as no ticket holds it and one waits, one can go on.
pub Reach-resume :
    {m : SyncMutex}
    → Reach new_mutex m
    → any is_holding m.tickets ≡ false
    → any is_waiting m.tickets ≡ true
    → (n : ℕ) × (us : List Ticket) × (resume n true m.tickets ≡ some us)
Reach-resume {m} r free some_wait = resume-enabled m.tickets (Reach-IsSound r).turn free some_wait
