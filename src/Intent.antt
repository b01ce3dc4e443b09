-- ===== src/Intent.antt =====
-- Durable payment intents, nonces and the store that holds them
-- (zeus-secretariat/src/core/types.ts, zeus-secretariat/src/store/in-memory-store.ts).
pub mod Types
pub mod Store
pub mod Tests
