-- ===== src/Domain.antt =====
-- domain/: the slot state machine and the models of a test.
pub mod Enums
pub mod Values
pub mod Texts
pub mod TestState
pub mod State
pub mod Context
pub mod Transitions
pub mod Machine
pub mod Manager
pub mod Config
