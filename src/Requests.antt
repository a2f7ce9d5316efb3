-- ===== src/Requests.antt =====
-- The manager of pending BRC-100 requests (src/services/brc100/RequestManager.ts).
pub mod Manager
pub mod Settling
pub mod Staleness
