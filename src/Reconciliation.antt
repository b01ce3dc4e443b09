-- ===== src/Reconciliation.antt =====
-- The search for the fate of a payment on the chain
-- (zeus-secretariat/src/core/multi-rpc-checker.ts, reconciliation-engine.ts and
-- reconciliation-worker.ts).
pub mod Checker
pub mod Transaction
pub mod Rounds
pub mod ByHash
pub mod ByState
pub mod Engine
pub mod Recovery
pub mod Jobs
pub mod Worker
pub mod Tests
pub mod EngineTests
pub mod WorkerTests
