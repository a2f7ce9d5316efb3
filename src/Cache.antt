-- ===== src/Cache.antt =====
-- The cache of API answers (src/infrastructure/api/requestCache.ts).
pub mod Entries
pub mod Eviction
pub mod Freshness
