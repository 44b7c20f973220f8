-- ===== src/Seeds/Sequencer.antt =====
-- `SeedSequencer` of sequencer.go: `Next`, `Plan` and `Rewind`.
use desync.Common.{
  ℕ, zero, suc, ◌+◌, ◌-◌, List, [], ◌∷◌, length, take, drop, leb, ltb, Bool, Option, none, some,
  if◌then◌else◌, ◌&&◌,
}
use desync.Index.Defs.{IndexChunk}
use desync.Seeds.Defs.{Seed, SeedSegment, segment_size}

pub record SeedSequencer : Type 0 where
  pub seeds : List Seed
  pub chunks : List IndexChunk
  pub current : ℕ

-- Positions in the index, both included.
pub record IndexSegment : Type 0 where
  pub first : ℕ
  pub last : ℕ

-- `chunks` of a segment within the index.
unfoldable pub chunks_of_segment : List IndexChunk → IndexSegment → List IndexChunk
chunks_of_segment chunks g = take (g.last - g.first + 1) (drop g.first chunks)

pub record SeedSegmentCandidate : Type 0 where
  pub seed : Option Seed
  pub source : Option SeedSegment
  pub index_segment : IndexSegment

unfoldable pub new_seed_sequencer : List IndexChunk → List Seed → SeedSequencer
new_seed_sequencer chunks seeds = record { seeds = seeds; chunks = chunks; current = 0 }

-- The variables of the loop over the seeds.
pub record Choice : Type 0 where
  pub seed : Option Seed
  pub source : Option SeedSegment
  pub advance : ℕ
  pub max : ℕ

unfoldable pub no_choice : Choice
no_choice = record { seed = none; source = none; advance = 1; max = 0 }

-- A nil segment comes with no chunks, and its size is not asked for.
unfoldable pub consider : Seed → ℕ × Option SeedSegment → Choice → Choice
consider s (n, none) best = best
consider s (n, some m) best =
    if ltb 0 n && ltb best.max (segment_size m)
    then record { seed = some s; source = some m; advance = n; max = segment_size m }
    else best

unfoldable pub choose : List Seed → List IndexChunk → Choice → Choice
choose [] chunks best = best
choose (s ∷ seeds) chunks best = choose seeds chunks (consider s (s.longest_match_with chunks) best)

-- What `Next` returns, and the sequencer behind it.
pub record Advanced : Type 0 where
  pub candidate : SeedSegmentCandidate
  pub done : Bool
  pub sequencer : SeedSequencer

unfoldable pub next : SeedSequencer → Advanced
next r =
    let best : Choice = choose r.seeds (drop r.current r.chunks) no_choice in
    record {
      candidate = record {
        seed = best.seed;
        source = best.source;
        index_segment = record { first = r.current; last = r.current + best.advance - 1 };
      };
      done = leb (length r.chunks) (r.current + best.advance);
      sequencer = record r { current = r.current + best.advance };
    }

-- Rounds until `Next` says that it is done; nothing is planned when the fuel is used up.
unfoldable pub plan_rounds : ℕ → SeedSequencer → Option (List SeedSegmentCandidate)
plan_rounds zero r = none
plan_rounds (suc fuel) r =
    let a = next r in
    let rest = plan_rounds fuel a.sequencer in
    if a.done
    then some (a.candidate ∷ [])
    else elim rest [ none ↦ none | some cs ↦ some (a.candidate ∷ cs) ]

-- A round takes at least one chunk.
unfoldable pub plan : SeedSequencer → Option (List SeedSegmentCandidate)
plan r = plan_rounds (suc (length r.chunks)) r

unfoldable pub rewind : SeedSequencer → SeedSequencer
rewind r = record r { current = 0 }
