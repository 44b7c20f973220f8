-- ===== src/Seeds.antt =====
-- seed.go, fileseed.go, nullseed.go, selfseed.go and sequencer.go: data that is already on disk, and
-- the plan to use it.
pub mod Defs
pub mod Matches
pub mod NullMatches
pub mod Longest
pub mod Sequencer
pub mod Plan
pub mod SelfSeed
pub mod Writing
