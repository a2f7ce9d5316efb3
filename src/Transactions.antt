-- ===== src/Transactions.antt =====
-- The tables of transactions and their labels (src/infrastructure/database/txRepository.ts).
pub mod Defs
pub mod Writes
pub mod Queries
pub mod Rows
pub mod Adding
pub mod Labels
pub mod Keyed
pub mod Guarding
pub mod Awaited
