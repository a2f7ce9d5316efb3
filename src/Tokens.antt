-- ===== src/Tokens.antt =====
-- Token transfers (src/services/tokens/transfers.ts).
pub mod FundingInputs
pub mod Selection
pub mod Planning
pub mod Transfer
pub mod Booking
