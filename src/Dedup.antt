-- ===== src/Dedup.antt =====
-- dedupqueue.go: requests for the same chunk that share one call of the store.
pub mod Defs
pub mod Invariant
pub mod Steps
pub mod Flight
