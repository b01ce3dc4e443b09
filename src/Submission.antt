-- ===== src/Submission.antt =====
-- The submission of a signed payment: the intents in PostgreSQL and the clients that send them.
pub mod Rows
pub mod World
pub mod Client
pub mod PaidCall
mod Tests
