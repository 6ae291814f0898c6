-- ===== src/Logger.antt =====
-- The logger (log/).
pub mod Format
pub mod Sink
pub mod Laws
pub mod Levels
