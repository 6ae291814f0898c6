-- ===== src/Pthread.antt =====
-- The pthread implementation of the thread pool, thread-pool/linux-implementation.
pub mod Pool
pub mod Counts
pub mod Group
pub mod Invariant
pub mod Steps
pub mod Schedules
