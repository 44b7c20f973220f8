-- ===== src/Seeds/Plan.antt =====
-- About `Plan` of sequencer.go: the segments of a plan, in order.
use desync.Common.{
  ℕ, zero, suc, ◌+◌, ◌-◌, ◌≤◌, ◌<◌, ◌≡◌, refl, subst, List, [], ◌∷◌, length, take, drop, All, leb,
  ltb, false, Bool-cases, Option, some, none, length-drop, arith, ◌&&◌, inl, inr,
}
use desync.Index.Defs.{IndexChunk}
use desync.Seeds.Defs.{Seed, SeedSegment, segment_size}
use desync.Seeds.Matches.{IsFaithful, Provides}
use desync.Seeds.Sequencer.{
  SeedSequencer, IndexSegment, SeedSegmentCandidate, Choice, new_seed_sequencer, no_choice,
  consider, choose, next, plan_rounds, plan, chunks_of_segment,
}
use desync.Stream.Defs.{ChunkId}

-- Where a segment of the plan comes from: one chunk from the store, or chunks that a seed holds.
abbrev pub IsProvided : ChunkId → List IndexChunk → Option SeedSegment → IndexSegment → Type 0
IsProvided null chunks none g = g.first ≡ g.last
IsProvided null chunks (some m) g = Provides null m (chunks_of_segment chunks g)

-- Segments from a position on to the end of the index: each starts where the one before it ends.
abbrev pub IsPlan : ChunkId → List IndexChunk → ℕ → List SeedSegmentCandidate → Type 0
IsPlan null chunks cur [] = cur ≡ length chunks
IsPlan null chunks cur (p ∷ ps) =
    (p.index_segment.first ≡ cur)
    × (cur ≤ p.index_segment.last)
    × (p.index_segment.last < length chunks)
    × IsProvided null chunks p.source p.index_segment
    × IsPlan null chunks (suc p.index_segment.last) ps

-- What the loop over the seeds has chosen.
abbrev IsSource : ChunkId → List IndexChunk → ℕ → Option SeedSegment → Type 0
IsSource null ts n none = n ≡ 1
IsSource null ts n (some m) = Provides null m (take n ts)

abbrev IsChoice : ChunkId → List IndexChunk → Choice → Type 0
IsChoice null ts best =
    (0 < best.advance) × (best.advance ≤ length ts) × IsSource null ts best.advance best.source

no_choice-IsChoice :
    (null : ChunkId) (ts : List IndexChunk) → 0 < length ts → IsChoice null ts no_choice
unfolding no_choice
no_choice-IsChoice null ts h = (omega arith, h, refl)

consider-IsChoice :
    (null : ChunkId) (s : Seed) (ts : List IndexChunk) (best : Choice) (n : ℕ)
    (m : Option SeedSegment)
    → n ≤ length ts
    → ((seg : SeedSegment) → m ≡ some seg → Provides null seg (take n ts))
    → IsChoice null ts best
    → IsChoice null ts (consider s (n, m) best)
unfolding consider
consider-IsChoice null s ts best n none fits holds h = h
consider-IsChoice null s ts best n (some seg) fits holds h =
    elim (Bool-cases (ltb 0 n && ltb best.max (segment_size seg))) [
      | inl better ↦ rw (consider, better) (ground (arith, better), fits, holds seg refl)
      | inr worse ↦ rw (consider, worse) h
    ]

choose-IsChoice :
    (null : ChunkId) (seeds : List Seed) (ts : List IndexChunk) (best : Choice)
    → All (IsFaithful null) seeds
    → IsChoice null ts best
    → IsChoice null ts (choose seeds ts best)
unfolding choose
choose-IsChoice null [] ts best every h = h
choose-IsChoice null (s ∷ seeds) ts best (ok, every) h =
    choose-IsChoice null seeds ts (consider s (s.longest_match_with ts) best) every (
      consider-IsChoice null s ts best (s.longest_match_with ts).0 (s.longest_match_with ts).1
        (ok.fits ts) (ok.provides ts) h)

step : (cur n : ℕ) → 0 < n → cur + n ≡ suc (cur + n - 1)
step cur n h = omega arith

-- The segment that a choice stands for.
segment_at : ℕ → ℕ → IndexSegment
segment_at cur advance = record { first = cur; last = cur + advance - 1 }

IsSource-IsProvided :
    (null : ChunkId) (chunks : List IndexChunk) (cur n : ℕ) (m : Option SeedSegment)
    → 0 < n
    → IsSource null (drop cur chunks) n m
    → IsProvided null chunks m (segment_at cur n)
unfolding segment_at chunks_of_segment
IsSource-IsProvided null chunks cur n none pos h = omega arith
IsSource-IsProvided null chunks cur n (some m) pos h =
    let size : n ≡ cur + n - 1 - cur + 1 = omega arith in
    subst (λ k. Provides null m (take k (drop cur chunks))) size h

plan_rounds-more :
    (fuel : ℕ) (r : SeedSequencer) (cs : List SeedSegmentCandidate)
    → (next r).done ≡ false
    → plan_rounds fuel (next r).sequencer ≡ some cs
    → plan_rounds (suc fuel) r ≡ some ((next r).candidate ∷ cs)
unfolding plan_rounds
plan_rounds-more fuel r cs more rest = rw (plan_rounds, more) (rw rest refl)

plan_rounds-IsPlan :
    (null : ChunkId) (fuel : ℕ) (r : SeedSequencer)
    → All (IsFaithful null) r.seeds
    → r.current < length r.chunks
    → length r.chunks < r.current + fuel
    → (cs : List SeedSegmentCandidate) × (plan_rounds fuel r ≡ some cs)
      × IsPlan null r.chunks r.current cs
unfolding plan_rounds next segment_at
plan_rounds-IsPlan null zero r every room enough = let bad : ⊥ = omega arith in elim bad [ ]
plan_rounds-IsPlan null (suc fuel) r every room enough =
    let best : Choice = choose r.seeds (drop r.current r.chunks) no_choice in
    let (some_taken, fits, source) =
      choose-IsChoice null r.seeds (drop r.current r.chunks) no_choice every (
        no_choice-IsChoice null (drop r.current r.chunks)
          (omega (arith, length-drop r.current r.chunks, room))) in
    elim (Bool-cases (leb (length r.chunks) (r.current + best.advance))) [
      | inl done ↦ (
        (next r).candidate ∷ [],
        rw (plan_rounds, next, done) refl,
        (
          refl,
          omega arith,
          omega (arith, length-drop r.current r.chunks),
          IsSource-IsProvided null r.chunks r.current best.advance best.source some_taken source,
          ground (arith, length-drop r.current r.chunks),
        ),
      )
      | inr more ↦
          let (cs, rest, follows) =
            plan_rounds-IsPlan null fuel (next r).sequencer every (ground arith) (omega arith) in
          (
            (next r).candidate ∷ cs,
            plan_rounds-more fuel r cs more rest,
            (
              refl,
              omega arith,
              omega (arith, length-drop r.current r.chunks),
              IsSource-IsProvided null r.chunks r.current best.advance best.source some_taken
                  source,
              subst (λ k. IsPlan null r.chunks k cs) (step r.current best.advance some_taken)
                  follows,
            ),
          )
    ]

-- For an index with chunks, and seeds whose matches fit and hold the chunks they stand for,
-- `Plan` ends, with segments that follow one another from the first chunk of the index to its
-- last, each either one chunk for the store, or chunks that the segment of the seed holds.
pub plan-IsPlan :
    (null : ChunkId) (c : IndexChunk) (chunks : List IndexChunk) (seeds : List Seed)
    → All (IsFaithful null) seeds
    → (cs : List SeedSegmentCandidate) × (plan (new_seed_sequencer (c ∷ chunks) seeds) ≡ some cs)
      × IsPlan null (c ∷ chunks) 0 cs
unfolding plan new_seed_sequencer
plan-IsPlan null c chunks seeds every =
    plan_rounds-IsPlan null (suc (length (c ∷ chunks))) (new_seed_sequencer (c ∷ chunks) seeds)
      every (omega arith) (omega arith)
