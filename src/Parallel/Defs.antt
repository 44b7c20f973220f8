-- ===== src/Parallel/Defs.antt =====
-- `pChunker`, `syncWith`, `ChunkingStats` and `IndexFromFile` of make.go.
--
-- A worker is a number, its place in the slice; a `next` that is not below the number of workers is
-- nil. A step of a worker is what it does up to where others see it: a send, a call of `syncWith`, its
-- return. In `syncWith` a worker reads its neighbour's bucket without waiting; what the neighbour sends
-- meanwhile might as well have been sent before the call or behind it. The buckets are as large as
-- the number of chunks that a worker can produce, so that no send waits. The calls of os.Open do not
-- fail here, nor the first Seek of a worker. The progress bar is left out.
use desync.Common.{
  ℕ, ◌+◌, ◌-◌, ◌*◌, ◌/◌, ◌%◌, ◌^◌, List, [], ◌∷◌, ◌++◌, length, drop, leb, ltb, ◌==◌, Option, none,
  some, Bool, true, false, ◌&&◌, if◌then◌else◌,
}
use desync.Chunk.Defs.{NullChunk, id_equal, zero_id}
use desync.Chunker.Defs.{Chunker, Split, next}
use desync.Chunker.Source.{Source, ReadError}
use desync.Index.Defs.{IndexChunk}
use desync.Stream.Defs.{ChunkId}

pub data WorkError : Type 0 where
  interrupted : WorkError
  chunking : ReadError → WorkError

-- Where a worker is in the loop of `start`.
pub data Phase : Type 0 where
  top : Phase
  -- behind the send of a chunk
  produced : IndexChunk → Phase
  -- behind `syncWith`, with the zeroes that it gave
  unsynced : IndexChunk → ℕ → Phase
  -- in the loop that sends null chunks: how many are to come, and the last chunk sent
  sending : ℕ → IndexChunk → Phase
  -- behind `stop`, and behind the close of the bucket
  finished closed : Phase

-- `active`
unfoldable pub active : Phase → Bool
active finished = false
active closed = false
active _ = true

pub record Worker : Type 0 where
  pub results : List IndexChunk
  pub chunker : Chunker
  pub offset : ℕ
  pub phase : Phase
  pub error : Option WorkError
  pub next : ℕ
  pub eof : Bool
  pub sync : IndexChunk

-- `IndexChunk{}`, which a receive from a closed bucket gives.
abbrev pub no_chunk : IndexChunk
no_chunk = record { id = zero_id; start = 0; size = 0 }

unfoldable pub end_of : IndexChunk → ℕ
end_of c = (c.start + c.size) % 2 ^ 64

-- What `syncWith` returns, and what it leaves of the bucket.
pub record Synced : Type 0 where
  pub matched : Bool
  pub zeroes : ℕ
  pub sync : IndexChunk
  pub results : List IndexChunk

-- A receive that finds the bucket empty.
unfoldable pub empty_handed : Bool → IndexChunk → ℕ → Synced
empty_handed is_closed sync n = record {
  matched = false;
  zeroes = n;
  sync = if is_closed then no_chunk else sync;
  results = [];
}

-- The loop over the null chunks that are in the bucket.
unfoldable pub count_nulls : NullChunk → Bool → ℕ → IndexChunk → List IndexChunk → Synced
unfolding empty_handed
count_nulls nc is_closed n sync [] = empty_handed is_closed sync n
count_nulls nc is_closed n sync (c ∷ cs) =
    let more = count_nulls nc is_closed ((n + length nc.content) % 2 ^ 64) c cs in
    if id_equal c.id nc.id
    then more
    else record { matched = false; zeroes = n; sync = c; results = cs }

-- Behind the first loop of `syncWith`.
unfoldable pub compare_with :
    NullChunk → Bool → IndexChunk → IndexChunk → IndexChunk → List IndexChunk → Synced
compare_with nc is_closed c before sync cs =
    let n : ℕ = (before.start + before.size + (2 ^ 64 - c.start)) % 2 ^ 64 in
    if (c.start == sync.start) && (c.size == sync.size)
    then record { matched = true; zeroes = 0; sync = sync; results = cs }
    else if id_equal sync.id nc.id && id_equal before.id nc.id
    then count_nulls nc is_closed n sync cs
    else record { matched = false; zeroes = 0; sync = sync; results = cs }

-- The first loop of `syncWith`, with `prev`.
unfoldable pub catch_up :
    NullChunk → Bool → IndexChunk → IndexChunk → IndexChunk → List IndexChunk → Synced
unfolding empty_handed compare_with
catch_up nc is_closed c before sync [] =
    if ltb sync.start c.start
    then empty_handed is_closed sync 0
    else compare_with nc is_closed c before sync []
catch_up nc is_closed c before sync (d ∷ ds) =
    let more = catch_up nc is_closed c sync d ds in
    if ltb sync.start c.start then more else compare_with nc is_closed c before sync (d ∷ ds)

unfoldable pub is_closed : Phase → Bool
is_closed closed = true
is_closed _ = false

unfoldable pub sync_with : NullChunk → Worker → IndexChunk → Synced
sync_with nc w c = catch_up nc (is_closed w.phase) c no_chunk w.sync w.results

-- The worker whose bucket was read.
unfoldable pub read_by : Worker → Synced → Worker
read_by w r = record w { sync = r.sync; results = r.results }

-- `stop`, behind an error or at the end of the stream.
unfoldable pub fail : WorkError → Worker → Worker
fail e w = record w { error = some e; phase = finished }

-- The loop of `start` up to the send of a chunk: an error, the end of the stream, or a chunk.
unfoldable pub made : (List ℕ → ChunkId) → Worker → Split → Worker
unfolding fail
made sum w s = elim s.error [
  | some e ↦ fail (chunking e) (record w { chunker = s.chunker })
  | none ↦ elim s.bytes [
    | [] ↦ record w { chunker = s.chunker; eof = true; phase = finished }
    | b ∷ bs ↦
        let c : IndexChunk = record {
          id = sum (b ∷ bs);
          start = (s.start + w.offset) % 2 ^ 64;
          size = length (b ∷ bs);
        } in
        record w { chunker = s.chunker; results = w.results ++ (c ∷ []); phase = produced c }
  ]
]

unfoldable pub produce : (List ℕ → ChunkId) → Worker → Worker
unfolding made
produce sum w = made sum w (next w.chunker)

-- `Advance` of chunker.go on a file, whose `Seek` is a parameter.
unfoldable pub advance :
    (ℕ → Source → Option ReadError × Source) → ℕ → Chunker → Option ReadError × Chunker
advance seek n c =
    let start : ℕ = (c.start + n) % 2 ^ 64 in
    if leb n (length c.buf)
    then (none, record c { start = start; buf = drop n c.buf })
    else let (e, r) = seek (n - length c.buf) c.r in
      (e, record c { start = start; buf = []; r = r })

-- How many null chunks fit the zeroes, as an `int`.
unfoldable pub null_chunks : NullChunk → ℕ → ℕ
null_chunks nc zeroes = if ltb zeroes (2 ^ 63) then zeroes / length nc.content else 0

unfoldable pub moved_on : ℕ → IndexChunk → Worker → Option ReadError × Chunker → Worker
unfolding fail
moved_on m c w (some e, d) = fail (chunking e) (record w { chunker = d })
moved_on m c w (none, d) = record w { chunker = d; phase = sending m c }

-- Behind `syncWith` with no match.
unfoldable pub skip_zeroes :
    (ℕ → Source → Option ReadError × Source) → NullChunk → IndexChunk → ℕ → Worker → Worker
unfolding moved_on
skip_zeroes seek nc c zeroes w =
    let m = null_chunks nc zeroes in
    if m == 0
    then record w { phase = sending 0 c }
    else moved_on m c w (advance seek (m * length nc.content) w.chunker)

unfoldable pub null_behind : NullChunk → IndexChunk → IndexChunk
null_behind nc c = record { id = nc.id; start = end_of c; size = length nc.content }

unfoldable pub send_null : NullChunk → ℕ → IndexChunk → Worker → Worker
send_null nc m c w = record w {
  results = w.results ++ (null_behind nc c ∷ []);
  phase = sending m (null_behind nc c);
}
