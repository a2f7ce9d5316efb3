-- ===== src/Store.antt =====
-- The `utxos` table (src/infrastructure/database/utxoRepository.ts).
pub mod Defs
pub mod Queries
pub mod Pending
pub mod Adding
pub mod Upkeep
