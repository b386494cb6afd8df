-- ===== src/Common.antt =====
-- The vocabulary that every component shares (include/mm/common).
pub mod Types
pub mod Doubles
pub mod Instrument
pub mod Fixed
