-- ===== src/ThreadPool.antt =====
-- The thread pool (thread-pool/stl-implementation).
pub mod Pool
pub mod Counts
pub mod Invariant
pub mod Schedules
pub mod Shutdown
