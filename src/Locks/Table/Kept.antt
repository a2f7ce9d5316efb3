-- ===== src/Locks/Table/Kept.antt =====
-- What persisting locks leaves in the tables, lock by lock.
use simply_sats.Prelude.{ℕ, ◌≡◌, none, some}
use simply_sats.Types.{Outpoint}
use simply_sats.Store.Defs.{UtxoRow, Store}
use simply_sats.Store.Queries.{get_utxo_by_outpoint}
use simply_sats.Locks.Table.{LockRow, LockTable, find_lock_of}

-- The outpoint has a row with an id.
abbrev pub HasId : Outpoint → ℕ → Store → Type 0
HasId o id s = (r : UtxoRow) × (get_utxo_by_outpoint o none s ≡ some r) × (r.id ≡ id)

-- The outpoint has a row, and the row a lock.
abbrev pub IsLocked : Outpoint → Store → LockTable → Type 0
IsLocked o s t = (id : ℕ) × HasId o id s × (q : LockRow) × (find_lock_of id t.rows ≡ some q)
