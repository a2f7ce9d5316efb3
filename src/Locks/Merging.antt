-- ===== src/Locks/Merging.antt =====
-- Lock reconciliation (src/services/wallet/lockReconciliation.ts): detected locks meet those that are in
-- the database. Scripts and keys stand as numbers; writes to the database are returned as lists of calls.
pub mod Lookup
pub mod Keeping
use simply_sats.Prelude.{
  ℕ, ◌+◌, ◌-◌, ◌/◌, min, Bool, true, false, not, ◌&&◌, ◌||◌, Option, none, some, List, [], ◌∷◌,
  ◌++◌, map, filter, any, ◌==◌, ltb, leb, if◌then◌else◌,
}
use simply_sats.Types.{Outpoint}

-- A block height that may come out below zero: `below n` is minus `n`, for a positive `n`.
pub data Height : Type 0 where
  height : ℕ → Height
  below : ℕ → Height

pub record LockedUtxo : Type 0 where
  pub at : Outpoint
  pub satoshis : ℕ
  pub locking_script : ℕ
  pub unlock_block : ℕ
  pub public_key_hex : ℕ
  pub created_at : ℕ
  pub lock_block : Option Height
  pub confirmation_block : Option ℕ

abbrev pub avg_block_ms : ℕ
avg_block_ms = 600000

-- Whether a number counts as true: neither missing nor 0.
abbrev pub is_truthy : Option Height → Bool
is_truthy none = false
is_truthy (some (height n)) = not (n == 0)
is_truthy (some (below n)) = true

-- `${txid}:${vout}`
abbrev pub same_key : Outpoint → Outpoint → Bool
same_key o p = o.txid == p.txid && o.vout == p.vout

-- The last lock under a key, as a map built from the list has it.
unfoldable pub find_lock : Outpoint → List LockedUtxo → Option LockedUtxo
find_lock o [] = none
find_lock o (l ∷ ls) = elim (find_lock o ls) [
  | none ↦ if same_key l.at o then some l else none
  | some k ↦ some k
]

abbrev pub has_key : List LockedUtxo → Outpoint → Bool
has_key ls o = any (λ l. same_key l.at o) ls

-- `Math.round(ms / AVG_BLOCK_MS)`
abbrev pub mempool_blocks : ℕ → ℕ
mempool_blocks ms = (ms + avg_block_ms / 2) / avg_block_ms

abbrev pub minus : ℕ → ℕ → Height
minus a b = if leb b a then height (a - b) else below (b - a)

-- The height of the lock, from the time that the coin waited before it was seen confirmed.
abbrev pub estimate : LockedUtxo → ℕ → Option Height → Option Height
estimate lock earlier known = if is_truthy known then known else elim lock.confirmation_block [
  | none ↦ known
  | some b ↦
      if not (b == 0) && ltb earlier lock.created_at
      then some (minus b (mempool_blocks (lock.created_at - earlier)))
      else known
]

abbrev pub either_block : Option Height → Option Height → Option Height
either_block a b = if is_truthy a then a else b

-- A detected lock with what its stored one knows.
unfoldable pub merge_lock : LockedUtxo → Option LockedUtxo → LockedUtxo
merge_lock lock none = lock
merge_lock lock (some p) =
    let earlier = min lock.created_at p.created_at in
    record lock {
      lock_block = estimate lock earlier (either_block p.lock_block lock.lock_block);
      created_at = earlier;
    }

-- The call of `updateLockBlock` that goes with it.
unfoldable pub backfill_lock : LockedUtxo → Option LockedUtxo → List (Outpoint × Height)
unfolding merge_lock
backfill_lock lock none = []
backfill_lock lock (some p) = elim (merge_lock lock (some p)).lock_block [
  | none ↦ []
  | some h ↦ if is_truthy (some h) && not (is_truthy p.lock_block) then (lock.at, h) ∷ [] else []
]

unfoldable pub merge_with_preloaded : List LockedUtxo → List LockedUtxo → List LockedUtxo
unfolding merge_lock find_lock
merge_with_preloaded detected preloaded =
    map (λ l. merge_lock l (find_lock l.at preloaded)) detected
    ++ filter (λ p. not (has_key detected p.at)) preloaded

-- A lock put at the end of a map, or in the place of the one under its key.
abbrev pub put_lock : List LockedUtxo → LockedUtxo → List LockedUtxo
put_lock [] l = l ∷ []
put_lock (k ∷ ks) l = if same_key k.at l.at then l ∷ ks else k ∷ put_lock ks l

unfoldable pub lock_map : List LockedUtxo → List LockedUtxo → List LockedUtxo
lock_map m [] = m
lock_map m (l ∷ ls) = lock_map (put_lock m l) ls

-- The locks whose keys the map lacks join it.
unfoldable pub add_missing : List LockedUtxo → List LockedUtxo → List LockedUtxo
add_missing m [] = m
add_missing m (l ∷ ls) = add_missing (if has_key m l.at then m else put_lock m l) ls

unfoldable pub combine_locks_with_existing : List LockedUtxo → List LockedUtxo → List LockedUtxo
unfolding lock_map add_missing
combine_locks_with_existing merged existing = add_missing (lock_map [] merged) existing

-- What the API says of a transaction: there, not found (404), or another error.
pub data TxAnswer : Type 0 where
  there not_found unknown : TxAnswer

abbrev pub is_not_found : TxAnswer → Bool
is_not_found there = false
is_not_found not_found = true
is_not_found unknown = false

-- `unlock_fails` tells for which outpoints `markLockUnlockedByTxid` throws, which keeps the lock.
abbrev pub is_phantom : (ℕ → TxAnswer) → (Outpoint → Bool) → List LockedUtxo → LockedUtxo → Bool
is_phantom ask unlock_fails detected p =
    not (has_key detected p.at) && is_not_found (ask p.at.txid) && not (unlock_fails p.at)

-- The locks that stay, and the outpoints whose locks are marked as unlocked.
unfoldable pub void_phantom_locks :
    (ℕ → TxAnswer)
    → (Outpoint → Bool)
    → List LockedUtxo
    → List LockedUtxo
    → List LockedUtxo × List Outpoint
void_phantom_locks ask unlock_fails detected preloaded =
    let voided = map (λ p. p.at) (filter (is_phantom ask unlock_fails detected) preloaded) in
    (filter (λ p. not (any (same_key p.at) voided)) preloaded, voided)

-- The locks that `reconcileLocks` returns.
unfoldable pub reconcile_locks :
    (ℕ → TxAnswer) → (Outpoint → Bool) → List LockedUtxo → List LockedUtxo → List LockedUtxo
unfolding void_phantom_locks merge_with_preloaded
reconcile_locks ask unlock_fails detected preloaded =
    merge_with_preloaded detected (void_phantom_locks ask unlock_fails detected preloaded).0
