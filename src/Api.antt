-- ===== src/Api.antt =====
-- backend/src/most_sprite/api: the requests that change the state of sequences, the instrument and
-- the archive.
pub mod Archive
pub mod Publication
pub mod Sequences
