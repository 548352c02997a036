-- ===== src/Controller.antt =====
-- controller/: the control of the test program's windows.
pub mod Selecting
pub mod Starting
pub mod Windows
pub mod Slots
