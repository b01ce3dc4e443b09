-- ===== src/Discovery.antt =====
-- What a seller asks for and can do: the parser of payment challenges and the resolver of
-- capabilities (zeus-secretariat/src/core).
pub mod Parser
pub mod Capability
mod Tests
