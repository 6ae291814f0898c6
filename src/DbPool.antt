-- ===== src/DbPool.antt =====
-- The database connection pool (database-connection-pool/).
pub mod Pool
pub mod Settings
pub mod System
pub mod Parts
pub mod Registry
pub mod Invariant
