-- ===== src/Sparse.antt =====
-- sparse-file.go: a file that is filled with the chunks that are read.
pub mod Defs
pub mod Range
pub mod Bytes
pub mod Load
pub mod Read
pub mod Failure
