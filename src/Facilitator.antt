-- ===== src/Facilitator.antt =====
-- The facilitator (zeus-facilitator/src): a service that verifies signed payments and puts them on
-- the chain.
pub mod Values
pub mod Requests
pub mod Verify
pub mod Settle
pub mod Server
mod Tests
