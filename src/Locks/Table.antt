-- ===== src/Locks/Table.antt =====
-- The table of locks (src/infrastructure/database/lockRepository.ts), and `persistLocks` of
-- src/services/wallet/lockReconciliation.ts, which fills it and the table of coins.
pub mod Marked
pub mod Persisted
pub mod Kept
use simply_sats.Prelude.{
  ℕ, suc, ◌+◌, Bool, true, false, not, ◌&&◌, ◌||◌, Option, none, some, or_else, List, [], ◌∷◌, ◌++◌,
  map, filter, any, ◌==◌, leb, if◌then◌else◌, Result, ok, err,
}
use simply_sats.Types.{Outpoint}
use simply_sats.Coins.{sort_utxos_by_value}
use simply_sats.Store.Defs.{
  UtxoRow, Store, DbError, query_failed, is_at, in_account, is_null, basket_locks,
}
use simply_sats.Store.Adding.{NewUtxo, AddFault, add_utxo}
use simply_sats.Locks.Merging.{Height, LockedUtxo, is_truthy}
use simply_sats.Transactions.Defs.{or_null}

pub record LockRow : Type 0 where
  pub id : ℕ
  pub utxo_id : ℕ
  pub unlock_block : ℕ
  pub lock_block : Option Height
  pub ordinal_origin : Option ℕ
  pub created_at : ℕ
  pub unlocked_at : Option ℕ
  pub account_id : ℕ

pub record LockTable : Type 0 where
  pub rows : List LockRow
  pub next_id : ℕ

-- `Omit<Lock, 'id'>`, with the fields that are written.
pub record NewLock : Type 0 where
  pub utxo_id : ℕ
  pub unlock_block : ℕ
  pub lock_block : Option Height
  pub ordinal_origin : Option ℕ
  pub created_at : ℕ

-- `lockBlock || null`
abbrev pub height_or_null : Option Height → Option Height
height_or_null h = if is_truthy h then h else none

abbrev pub lock_row : NewLock → Option ℕ → ℕ → LockRow
lock_row l account id = record {
  id = id;
  utxo_id = l.utxo_id;
  unlock_block = l.unlock_block;
  lock_block = height_or_null l.lock_block;
  ordinal_origin = or_null l.ordinal_origin;
  created_at = l.created_at;
  unlocked_at = none;
  account_id = or_else account 1;
}

abbrev pub locks_utxo : ℕ → LockRow → Bool
locks_utxo utxo_id r = r.utxo_id == utxo_id

-- A second lock of a coin violates the unique index on `utxo_id`. `faults`: the statement throws.
unfoldable pub add_lock : Bool → NewLock → Option ℕ → LockTable → Result ℕ DbError × LockTable
add_lock faults l account t =
    if faults || any (locks_utxo l.utxo_id) t.rows then (err query_failed, t) else (
      ok t.next_id,
      record { rows = t.rows ++ (lock_row l account t.next_id ∷ []); next_id = suc t.next_id },
    )

-- The first lock of a coin.
abbrev pub find_lock_of : ℕ → List LockRow → Option LockRow
find_lock_of utxo_id [] = none
find_lock_of utxo_id (r ∷ rs) = if locks_utxo utxo_id r then some r else find_lock_of utxo_id rs

unfoldable pub add_lock_if_not_exists :
    Bool → NewLock → Option ℕ → LockTable → Result ℕ DbError × LockTable
unfolding add_lock
add_lock_if_not_exists faults l account t = elim (find_lock_of l.utxo_id t.rows) [
  | some r ↦ (ok r.id, t)
  | none ↦ add_lock faults l account t
]

-- A lock with the coin that it locks.
pub record LockView : Type 0 where
  pub lock : LockRow
  pub utxo : UtxoRow
  pub spendable : Bool

-- `INNER JOIN utxos`
abbrev pub join_utxos : ℕ → List UtxoRow → List LockRow → List LockView
join_utxos height utxos [] = []
join_utxos height utxos (l ∷ ls) =
    map (λ u. record { lock = l; utxo = u; spendable = leb l.unlock_block height })
      (filter (λ u. l.utxo_id == u.id) utxos)
    ++ join_utxos height utxos ls

abbrev pub lock_in_account : Option ℕ → LockRow → Bool
lock_in_account none l = true
lock_in_account (some a) l = l.account_id == a

unfoldable pub get_locks : ℕ → Option ℕ → Store → LockTable → List LockView
unfolding sort_utxos_by_value
get_locks height account s t =
    sort_utxos_by_value (λ v. v.lock.unlock_block)
      (filter (λ v. is_null v.lock.unlocked_at && lock_in_account account v.lock)
        (join_utxos height s.rows t.rows))

abbrev pub update_locks : (LockRow → Bool) → (LockRow → LockRow) → LockTable → LockTable
update_locks p f t = record t { rows = map (λ l. if p l then f l else l) t.rows }

unfoldable pub mark_lock_unlocked : ℕ → ℕ → LockTable → LockTable
mark_lock_unlocked now lock_id t =
    update_locks (λ l. l.id == lock_id) (λ l. record l { unlocked_at = some now }) t

-- `utxo_id IN (SELECT id FROM utxos WHERE …)`
abbrev pub locks_outpoint : Outpoint → Option ℕ → List UtxoRow → LockRow → Bool
locks_outpoint o account utxos l =
    any (λ u. l.utxo_id == u.id && (is_at o u && in_account account u)) utxos

unfoldable pub mark_lock_unlocked_by_txid : ℕ → Outpoint → Option ℕ → Store → LockTable → LockTable
mark_lock_unlocked_by_txid now o account s t =
    update_locks (λ l. locks_outpoint o account s.rows l && is_null l.unlocked_at)
      (λ l. record l { unlocked_at = some now }) t

abbrev pub has_no_block : Option Height → Bool
has_no_block none = true
has_no_block (some h) = false

unfoldable pub update_lock_block : Outpoint → Height → Store → LockTable → LockTable
update_lock_block o block s t =
    update_locks (λ l. locks_outpoint o none s.rows l && has_no_block l.lock_block)
      (λ l. record l { lock_block = some block }) t

unfoldable pub get_all_locks : Option ℕ → LockTable → List LockRow
get_all_locks account t = filter (lock_in_account account) t.rows

-- The coin of a lock, as it is written.
abbrev pub lock_utxo : LockedUtxo → NewUtxo
lock_utxo l = record {
  at = l.at;
  satoshis = l.satoshis;
  locking_script = l.locking_script;
  address = none;
  basket = basket_locks;
  spendable = false;
  created_at = l.created_at;
  tags = [];
}

abbrev pub new_lock : LockedUtxo → ℕ → NewLock
new_lock l utxo_id = record {
  utxo_id = utxo_id;
  unlock_block = l.unlock_block;
  lock_block = l.lock_block;
  ordinal_origin = none;
  created_at = l.created_at;
}

-- The lock of a coin that was added, if it was.
abbrev pub lock_added :
    Bool → LockedUtxo → Option ℕ → LockTable → Result ℕ DbError × Store → Store × LockTable
unfolding add_lock_if_not_exists
lock_added faults l account t (ok utxo_id, s) =
    (s, (add_lock_if_not_exists faults (new_lock l utxo_id) account t).1)
lock_added faults l account t (err e, s) = (s, t)

-- One round of the loop; what it throws is caught. The tests tell which database calls fail.
unfoldable pub persist_lock :
    AddFault → Bool → LockedUtxo → Option ℕ → Store → LockTable → Store × LockTable
unfolding add_utxo
persist_lock utxo_fails lock_fails l account s t =
    lock_added lock_fails l account t (add_utxo utxo_fails (lock_utxo l) account s)

unfoldable pub persist_locks :
    (Outpoint → AddFault)
    → (Outpoint → Bool)
    → List LockedUtxo
    → Option ℕ
    → Store
    → LockTable
    → Store × LockTable
unfolding persist_lock
persist_locks utxo_fails lock_fails [] account s t = (s, t)
persist_locks utxo_fails lock_fails (l ∷ ls) account s t =
    let (s', t') = persist_lock (utxo_fails l.at) (lock_fails l.at) l account s t in
    persist_locks utxo_fails lock_fails ls account s' t'
