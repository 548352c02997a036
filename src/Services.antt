-- ===== src/Services.antt =====
-- services/: the parts that run tests.
pub mod World
pub mod Waiting
pub mod Batch
pub mod Executors
pub mod UiState
pub mod WorkerPool
pub mod StateMonitor
pub mod MemoryMonitor
