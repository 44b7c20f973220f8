-- ===== src/Chunker.antt =====
-- chunker.go: content-defined chunking of a stream.
pub mod Table
pub mod Words
pub mod Hash
pub mod Source
pub mod Defs
pub mod Stream
pub mod Loop
pub mod Sizes
pub mod Divisibility
pub mod Advance
