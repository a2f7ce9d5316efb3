-- ===== src/Tests.antt =====
-- The theorems at concrete inputs.
mod Balances
mod Keeping
mod Recording
mod Discovering
mod Data
mod Selection
mod Rows
mod Sending
mod Transfers
mod Services
mod Caching
mod Chain
mod Locking
mod Syncing
mod Hashing
