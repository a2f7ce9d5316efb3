-- ===== src/Tests/Keeping.antt =====
-- The table of locks at small inputs.
use simply_sats.Prelude.{ℕ, ◌≡◌, refl, none, some, [], ◌∷◌, length, map, ◌==◌}
use simply_sats.Coins.{sort_utxos_by_value, insert_by_value}
use simply_sats.Store.Defs.{Store}
use simply_sats.Store.Queries.{get_utxo_by_outpoint}
use simply_sats.Store.Adding.{no_fault, add_utxo, place, resolve_account, found_again}
use simply_sats.Locks.Merging.{LockedUtxo}
use simply_sats.Locks.Table.{
  LockTable, persist_lock, persist_locks, add_lock, add_lock_if_not_exists, get_locks,
  mark_lock_unlocked_by_txid,
}
use simply_sats.Tests.Data.{two_rows, first_out}

abbrev lock_at : ℕ → ℕ → LockedUtxo
lock_at txid unlock_block = record {
  at = record { txid = txid; vout = 0 };
  satoshis = 1000;
  locking_script = 3;
  unlock_block = unlock_block;
  public_key_hex = 4;
  created_at = 10;
  lock_block = none;
  confirmation_block = none;
}

abbrev no_locks : LockTable
no_locks = record { rows = []; next_id = 1 }

-- A known coin, and a new one whose lock cannot be added.
abbrev after : Store × LockTable
after =
    persist_locks (λ o. no_fault) (λ o. o.txid == 70) (lock_at 11 900 ∷ lock_at 70 800 ∷ [])
      (some 1) two_rows no_locks

persist_locks-rows : (length after.0.rows ≡ 3) × (map (λ l. l.utxo_id) after.1.rows ≡ 1 ∷ [])
unfolding persist_locks persist_lock add_lock_if_not_exists add_lock add_utxo place resolve_account
    found_again get_utxo_by_outpoint
persist_locks-rows = (refl, refl)

-- The lock is shown before and not after.
get_locks-after :
    (length (get_locks 850 (some 1) after.0 after.1) ≡ 1)
    × (get_locks 850
          (some 1)
          after.0
          (mark_lock_unlocked_by_txid 99 first_out (some 1) after.0 after.1)
        ≡ [])
unfolding get_locks mark_lock_unlocked_by_txid sort_utxos_by_value insert_by_value persist_locks
    persist_lock add_lock_if_not_exists add_lock add_utxo place resolve_account found_again
    get_utxo_by_outpoint
get_locks-after = (refl, refl)
