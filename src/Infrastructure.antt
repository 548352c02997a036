-- ===== src/Infrastructure.antt =====
-- The services that the agent keeps beside its slots.
pub mod StateStore
pub mod ProcessManager
