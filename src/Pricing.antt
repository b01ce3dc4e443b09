-- ===== src/Pricing.antt =====
-- The prices of the API server (api-server/src/services): staking cover, and the penalties of
-- agents.
pub mod Staking
pub mod Penalty
mod Tests
