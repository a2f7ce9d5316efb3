-- ===== src/Locks.antt =====
-- Locks: the timelock scripts of src/domain/locks/timelockScript.ts.
pub mod Asm
pub mod Template
pub mod Script
pub mod Assembly
pub mod RoundTrip
pub mod Merging
pub mod Table
