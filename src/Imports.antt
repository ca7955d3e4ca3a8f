-- ===== src/Imports.antt =====
-- backend/src/most_sprite/imports/service.py: directories of FITS files of another instrument are
-- inspected, and then imported.
pub mod Names
pub mod Paths
pub mod Scan
pub mod State
pub mod Inspection
pub mod Artifact
pub mod Copy
pub mod Register
pub mod Commit
pub mod Tests
