-- ===== src/Send.antt =====
-- Sending (src/services/wallet/transactions.ts): select coins, build, mark pending, broadcast, record.
-- Each function holds the account's sync lock from before the coin selection to its end, so it
-- runs as one step of the state. The answers of the database, the backend and the network are
-- arguments: `Events`. `resetInactivityTimer` and the logging leave no trace here.
pub mod Balances
pub mod Outputs
pub mod Consolidation
pub mod Record
pub mod Payments
pub mod Failures
pub mod Successes
pub mod Guards
