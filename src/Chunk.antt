-- ===== src/Chunk.antt =====
-- chunk.go, coverter.go, nullchunk.go and errors.go: chunks, their ids and their storage format.
pub mod Defs
pub mod Storage
