-- ===== src/Seeds/Defs.antt =====
-- `Seed` of seed.go, and its implementations in fileseed.go and nullseed.go.
--
-- A file is a number that names it. The map from ids to positions is a function, where a missing key
-- has no position.
use desync.Common.{
  ℕ, ◌+◌, ◌-◌, ◌%◌, ◌^◌, List, [], ◌∷◌, ◌++◌, length, take, drop, ltb, ◌==◌, not, ◌&&◌, ◌||◌, Bool,
  false, Option, none, some, if◌then◌else◌,
}
use desync.Chunk.Defs.{id_equal}
use desync.Index.Defs.{IndexChunk}
use desync.Stream.Defs.{ChunkId}

pub data SeedSegment : Type 0 where
  -- `fileSeedSegment`: the file, the chunks in it, and whether it can be reflinked
  file_segment : ℕ → List IndexChunk → Bool → SeedSegment
  -- `nullChunkSection`: from, to, and whether it can be reflinked
  null_section : ℕ → ℕ → Bool → SeedSegment

unfoldable pub last_end_of : IndexChunk → List IndexChunk → ℕ
last_end_of c [] = c.start + c.size
last_end_of c (d ∷ chunks) = last_end_of d chunks

unfoldable pub size_of_chunks : List IndexChunk → ℕ
size_of_chunks [] = 0
size_of_chunks (c ∷ chunks) = (last_end_of c chunks % 2 ^ 64 + 2 ^ 64 - c.start) % 2 ^ 64

unfoldable pub segment_size : SeedSegment → ℕ
segment_size (file_segment file chunks reflink) = size_of_chunks chunks
segment_size (null_section from to reflink) = (to + 2 ^ 64 - from) % 2 ^ 64

-- What the sequencer asks of a seed: the number of chunks and the segment that holds them.
pub record Seed : Type 0 where
  pub longest_match_with : List IndexChunk → ℕ × Option SeedSegment

abbrev pub Positions : Type 0
Positions = ChunkId → List ℕ

unfoldable pub add_position : ChunkId → ℕ → Positions → Positions
add_position id i pos j = if id_equal id j then pos j ++ (i ∷ []) else pos j

unfoldable pub positions_from : ℕ → List IndexChunk → Positions → Positions
positions_from i [] pos = pos
positions_from i (c ∷ chunks) pos = positions_from (i + 1) chunks (add_position c.id i pos)

pub record FileSeed : Type 0 where
  pub src_file : ℕ
  pub chunks : List IndexChunk
  pub pos : Positions
  pub can_reflink : Bool
  pub is_invalid : Bool

unfoldable pub new_index_seed : ℕ → List IndexChunk → Bool → FileSeed
new_index_seed file chunks reflink = record {
  src_file = file;
  chunks = chunks;
  pos = positions_from 0 chunks (λ id. []);
  can_reflink = reflink;
  is_invalid = false;
}

unfoldable pub set_invalid : Bool → FileSeed → FileSeed
set_invalid value s = record s { is_invalid = value }

-- 0 is no limit.
unfoldable pub at_limit : ℕ → ℕ → Bool
at_limit limit n = not (limit == 0) && n == limit

-- The loop of `maxMatchFrom`: how many chunks match, `sp` of them so far.
unfoldable pub match_length : ℕ → ℕ → List IndexChunk → List IndexChunk → ℕ
match_length limit sp [] ds = sp
match_length limit sp (c ∷ cs) [] = sp
match_length limit sp (c ∷ cs) (d ∷ ds) =
    let more = match_length limit (sp + 1) cs ds in
    if at_limit limit sp then sp else if id_equal c.id d.id then more else sp

unfoldable pub max_match_from : FileSeed → List IndexChunk → ℕ → ℕ → List IndexChunk
max_match_from s chunks p limit =
    let source : List IndexChunk = drop p s.chunks in
    take (match_length limit 0 chunks source) source

-- The longer of two matches, the first of equal ones.
unfoldable pub longer : List IndexChunk → List IndexChunk → List IndexChunk
longer found m = if ltb (length found) (length m) then m else found

-- The loop over the positions, with the longest match so far.
unfoldable pub best_match :
    FileSeed → List IndexChunk → ℕ → List ℕ → List IndexChunk → List IndexChunk
best_match s chunks limit [] found = found
best_match s chunks limit (p ∷ ps) found =
    let found' = longer found (max_match_from s chunks p limit) in
    let rest = best_match s chunks limit ps found' in
    if at_limit limit (length found') then found' else rest

unfoldable pub limit_of : Bool → ℕ
limit_of reflink = if reflink then 0 else 100

-- Behind the checks: at the first of the chunks.
unfoldable pub match_at : FileSeed → IndexChunk → List IndexChunk → ℕ × Option SeedSegment
match_at s c chunks = elim (s.pos c.id) [
  | [] ↦ (0, none)
  | p ∷ ps ↦
      let found : List IndexChunk =
        best_match s (c ∷ chunks) (limit_of s.can_reflink) (p ∷ ps) [] in
      (length found, some (file_segment s.src_file found s.can_reflink))
]

unfoldable pub file_longest_match : FileSeed → List IndexChunk → ℕ × Option SeedSegment
file_longest_match s [] = (0, none)
file_longest_match s (c ∷ chunks) =
    if length s.chunks == 0 || s.is_invalid then (0, none) else match_at s c chunks

unfoldable pub file_seed : FileSeed → Seed
file_seed s = record { longest_match_with = file_longest_match s }

pub record NullChunkSeed : Type 0 where
  pub id : ChunkId
  pub can_reflink : Bool

-- The loop of `LongestMatchWith` of the null seed.
unfoldable pub null_run : ℕ → ℕ → ChunkId → List IndexChunk → ℕ
null_run limit n id [] = n
null_run limit n id (c ∷ chunks) =
    let more = null_run limit (n + 1) id chunks in
    if at_limit limit n then n else if id_equal c.id id then more else n

unfoldable pub null_longest_match : NullChunkSeed → List IndexChunk → ℕ × Option SeedSegment
null_longest_match s [] = (0, none)
null_longest_match s (c ∷ chunks) =
    let n : ℕ = null_run (limit_of s.can_reflink) 0 s.id (c ∷ chunks) in
    if n == 0 then (0, none) else (
      n,
      some (null_section c.start (last_end_of c (take (n - 1) chunks) % 2 ^ 64) s.can_reflink),
    )

unfoldable pub null_seed : NullChunkSeed → Seed
null_seed s = record { longest_match_with = null_longest_match s }
