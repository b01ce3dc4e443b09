-- ===== src/Feedback.antt =====
-- Feedback of results into the operation's state machine
-- (zeus-secretariat/src/core/execution-feedback-service.ts, settlement-feedback-service.ts).
pub mod Execution
pub mod Settlement
pub mod Tests
