-- ===== src/RedisPool.antt =====
-- The Redis connection pool (redis-connection-pool/).
pub mod Types
pub mod Factory
pub mod Connections
pub mod Borrow
pub mod Recycle
pub mod Settings
pub mod System
pub mod LoopRule
pub mod Ownership
pub mod Custody
pub mod Sizes
pub mod Bounds
pub mod Invariant
pub mod RecycleLaw
pub mod Exhaustion
pub mod Calls
