-- ===== src/Parallel.antt =====
-- make.go: a file that several workers chunk at the same time.
pub mod Defs
pub mod System
pub mod Sync
pub mod Invariant
pub mod Local
pub mod Work
pub mod Neighbour
pub mod Leaving
pub mod Assembling
pub mod Reachable
pub mod Progress
pub mod Schedule
pub mod Zeroes
pub mod Accurate
pub mod Skipping
pub mod Sound
pub mod Whole
