-- ===== src/Index.antt =====
-- index.go: index files, read from and written to a stream of bytes.
pub mod Defs
pub mod Layout
pub mod RoundTrip
