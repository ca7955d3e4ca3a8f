-- ===== src/Calibration.antt =====
-- The selection of calibrations.
pub mod Matcher
