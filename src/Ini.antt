-- ===== src/Ini.antt =====
-- The INI reader (ini/).
pub mod Reader
pub mod Texts
pub mod RoundTrip
pub mod Values
