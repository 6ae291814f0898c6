-- ===== src/Guards.antt =====
-- The guards that give a connection back to its pool when they are destroyed.
pub mod Store
pub mod RedisConnGuard
pub mod PooledConnGuard
