-- ===== src/Execution.antt =====
-- Execution after settlement: attempts, recovery jobs, their store, the engine and the worker
-- (zeus-secretariat/src/core/post-settlement-engine.ts, execution-worker.ts).
pub mod Types
pub mod Store
pub mod Rows
pub mod World
pub mod Attempt
pub mod Recovery
pub mod Job
pub mod Scanner
pub mod Worker
pub mod Tests
