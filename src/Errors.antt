-- ===== src/Errors.antt =====
-- The errors of the error library: error/src and error/include.
pub mod Kinds
pub mod Chain
pub mod Laws
