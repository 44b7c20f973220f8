-- ===== src/Parallel/Invariant.antt =====
-- About the states that the workers of make.go and the main routine reach.
use desync.Common.{ℕ, ◌+◌, ◌*◌, ◌%◌, ◌^◌, ◌≤◌, ◌<◌, ◌≡◌, ◌⊎◌, List, [], true, false, none, some}
use desync.Chunker.Stream.{IsChunker}
use desync.Index.Defs.{IndexChunk}
use desync.Parallel.Defs.{
  Phase, top, produced, unsynced, sending, finished, closed, active, Worker, end_of, WorkError,
}
use desync.Parallel.Sync.{Chain}
use desync.Parallel.System.{Making}

-- The position in the file at which the worker's chunker stands.
abbrev pub position : Worker → ℕ
position w = (w.offset + w.chunker.start) % 2 ^ 64

-- What holds for a worker that has sent the chunks up to `sent`; null chunks are `size` long.
abbrev pub IsIn : ℕ → ℕ → Worker → Phase → Type 0
IsIn size sent w top = IsChunker w.chunker × (sent ≡ position w)
IsIn size sent w (produced c) =
    IsChunker w.chunker × (sent ≡ position w) × (end_of c ≡ sent) × (0 < c.size)
IsIn size sent w (unsynced c z) = IsChunker w.chunker × (sent ≡ position w) × (end_of c ≡ sent)
IsIn size sent w (sending m c) =
    IsChunker w.chunker × (end_of c ≡ sent) × ((sent + m * size) % 2 ^ 64 ≡ position w)
IsIn size sent w finished = w.eof ≡ true → sent ≡ position w
IsIn size sent w closed = w.eof ≡ true → sent ≡ position w

-- The neighbour and the bucket say nothing of where the chunker stands.
pub IsIn-fields :
    (size sent n : ℕ) (cs : List IndexChunk) (w : Worker) (p : Phase)
    → IsIn size sent w p
    → IsIn size sent (record w { next = n; results = cs }) p
IsIn-fields size sent n cs w top h = h
IsIn-fields size sent n cs w (produced c) h = h
IsIn-fields size sent n cs w (unsynced c z) h = h
IsIn-fields size sent n cs w (sending m c) h = h
IsIn-fields size sent n cs w finished h = h
IsIn-fields size sent n cs w closed h = h

pub record IsWorker (size front sent : ℕ) (w : Worker) : Type 0 where
  pub chain : Chain front w.results sent
  pub phase : IsIn size sent w w.phase
  pub before_end : active w.phase ≡ true → w.eof ≡ false

-- A worker that has stopped, with nothing in its bucket.
pub record IsDone (w : Worker) : Type 0 where
  pub stopped : active w.phase ≡ false
  pub empty : w.results ≡ []

-- No worker before this one has left it behind.
abbrev pub IsClear : (ℕ → Worker) → ℕ → Type 0
IsClear ws j = (i : ℕ) → i < j → (ws i).next ≤ j

-- Why a worker has stopped: an error, the end of the file, or a match with its neighbour, whose bucket
-- goes on where this one's ends.
abbrev pub Ends : (ℕ → Worker) → ℕ → ℕ → Worker → Type 0
Ends ws count sent w =
    ((e : WorkError) × (w.error ≡ some e))
    ⊎ (w.eof ≡ true)
    ⊎ ((w.next < count) × (0 < (ws w.next).sync.size) × (end_of (ws w.next).sync ≡ sent))

-- The worker that is to go on with the index is `lead`: those before it, from the one on whose bucket
-- the main routine reads, have nothing to add.
pub record IsMaking (size : ℕ) (s : Making) : Type 0 where
  pub front : ℕ → ℕ
  pub sent : ℕ → ℕ
  pub lead : ℕ
  pub workers : (j : ℕ) → IsWorker size (front j) (sent j) (s.worker j)
  pub after : (j : ℕ) → j < s.count → (j < (s.worker j).next) × ((s.worker j).next ≤ s.count)
  pub between : (j i : ℕ) → j < s.count → j < i → i < (s.worker j).next → IsDone (s.worker i)
  pub nested :
      (j i : ℕ)
      → j < s.count
      → j < i
      → i < (s.worker j).next
      → (s.worker i).next ≤ (s.worker j).next
  pub synced : (j : ℕ) → s.at < j → 0 < (s.worker j).sync.size → end_of (s.worker j).sync ≡ front j
  pub ends :
      (j : ℕ)
      → s.at ≤ j
      → j < s.count
      → active (s.worker j).phase ≡ false
      → IsClear s.worker j
      → Ends s.worker s.count (sent j) (s.worker j)
  pub below : (j : ℕ) → j < s.at → active (s.worker j).phase ≡ false
  pub at_lead : s.at ≤ lead
  pub lead_below : lead < s.count
  pub lead-IsClear : IsClear s.worker lead
  pub left : (i : ℕ) → s.at ≤ i → i < lead → IsDone (s.worker i)
  pub accepted : Chain 0 s.chunks (front lead)
  pub returned :
      s.result ≡ some none
      → ((s.worker s.at).eof ≡ true)
        × ((s.worker s.at).results ≡ [])
        × (active (s.worker s.at).phase ≡ false)
