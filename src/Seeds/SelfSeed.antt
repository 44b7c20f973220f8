-- ===== src/Seeds/SelfSeed.antt =====
-- `selfSeed` of selfseed.go, a seed over the part of the target that is written.
--
-- None of its methods returns an error. They run under the mutex of the seed, one at a time. The map
-- `cache` is an association list,
-- where an entry put in front hides the ones behind it and `delete` takes all of them out.
pub mod Laws
mod Tiling
mod Round
pub mod Order
use desync.Common.{
  ℕ, zero, suc, ◌+◌, ◌-◌, List, [], ◌∷◌, length, take, drop, ltb, ◌==◌, Bool, Option, none, some,
  if◌then◌else◌,
}
use desync.Common.Outcome.{Outcome, ok, panic, out_of_fuel, ◌>>=◌}
use desync.Index.Defs.{IndexChunk}
use desync.Seeds.Defs.{SeedSegment, file_segment, Positions, positions_from}
use desync.Seeds.Sequencer.{IndexSegment}
use desync.Stream.Defs.{ChunkId}

abbrev pub Entries : Type 0
Entries = List (ℕ × ℕ)

unfoldable pub lookup : Entries → ℕ → Option ℕ
lookup [] k = none
lookup ((j, v) ∷ cache) k = if j == k then some v else lookup cache k

unfoldable pub delete : ℕ → Entries → Entries
delete k [] = []
delete k ((j, v) ∷ cache) = let rest = delete k cache in if j == k then rest else (j, v) ∷ rest

pub record SelfSeed : Type 0 where
  pub file : ℕ
  pub chunks : List IndexChunk
  pub pos : Positions
  pub can_reflink : Bool
  pub written : ℕ
  pub cache : Entries

-- Whether the file can be cloned into itself is asked of the file system.
unfoldable pub new_self_seed : ℕ → List IndexChunk → Bool → SelfSeed
new_self_seed file chunks clone = record {
  file = file;
  chunks = chunks;
  pos = λ id. [];
  can_reflink = clone;
  written = 0;
  cache = [];
}

-- A position behind the index ends in a panic.
unfoldable pub record_written : ℕ → SelfSeed → Outcome ⊥ SelfSeed
record_written end s =
    if ltb s.written end
    then (if ltb (length s.chunks) end
        then panic
        else ok record s {
          pos = positions_from s.written (take (end - s.written) (drop s.written s.chunks)) s.pos;
        })
    else ok s

-- The loop of `add`.
unfoldable pub advance : ℕ → SelfSeed → Outcome ⊥ SelfSeed
advance zero s = out_of_fuel
advance (suc fuel) s = elim (lookup s.cache s.written) [
  | none ↦ ok s
  | some end ↦
      record_written end s
      >>= (λ r. advance fuel record r { cache = delete r.written r.cache; written = end })
]

-- Every round takes an entry out.
unfoldable pub add : IndexSegment → SelfSeed → Outcome ⊥ SelfSeed
add g s =
    let cache : Entries = (g.first, g.last + 1) ∷ s.cache in
    advance (suc (length cache)) record s { cache = cache }

unfoldable pub get_chunk : ChunkId → SelfSeed → Outcome ⊥ (Option SeedSegment)
get_chunk id s = elim (s.pos id) [
  | [] ↦ ok none
  | p ∷ ps ↦
      if ltb p (length s.chunks)
      then ok (some (file_segment s.file (take 1 (drop p s.chunks)) s.can_reflink))
      else panic
]
