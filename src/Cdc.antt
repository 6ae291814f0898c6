-- ===== src/Cdc.antt =====
-- The communication library: cross-domain-communication/src.
pub mod Communicator
pub mod Descriptors
pub mod Io
pub mod Sealed
pub mod Address
