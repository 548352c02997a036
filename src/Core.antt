-- ===== src/Core.antt =====
-- core/: what the services are made with.
pub mod Container
pub mod Memory
