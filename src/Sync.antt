-- ===== src/Sync.antt =====
-- The lock that serialises syncs and sends (src/services/cancellation.ts).
pub mod Mutex
pub mod Exclusion
