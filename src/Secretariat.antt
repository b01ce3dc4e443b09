-- ===== src/Secretariat.antt =====
-- The state machine of an operation (zeus-secretariat/src/core/state-machine.ts).
pub mod Outbox
mod Tests
