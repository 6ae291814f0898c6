-- ===== src/Result.antt =====
-- The result type of the error framework (error/include/result.h).
pub mod Storage
pub mod Laws
pub mod Propagation
