-- ===== src/Operation.antt =====
-- The operation that the secretariat drives: its state machine and its record
-- (zeus-secretariat/src/core/operation-fsm.ts, types.ts).
pub mod Status
pub mod Fsm
pub mod Ranking
pub mod Defs
pub mod Tests
