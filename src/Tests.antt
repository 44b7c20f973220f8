-- ===== src/Tests.antt =====
-- The theorems at concrete inputs.
mod Chunking
mod Elements
mod Chunks
mod Stores
mod Seeding
mod Sessions
mod Dedup
mod Seeking
mod Loading
mod Writing
mod Parallel
mod Assembling
