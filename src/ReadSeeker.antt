-- ===== src/ReadSeeker.antt =====
-- `IndexPos` of readseeker.go: a position in the blob of an index.
pub mod Defs
pub mod Position
pub mod Reading
pub mod Ranges
pub mod Moves
pub mod Contents
