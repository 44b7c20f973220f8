-- ===== src/Parallel/System.antt =====
-- `start` and `IndexFromFile` of make.go, the workers and the main routine together.
use desync.Common.{
  ℕ, suc, ◌+◌, ◌*◌, ◌/◌, ◌<◌, ◌≡◌, List, [], ◌∷◌, ◌++◌, ltb, ◌==◌, Option, none, some, Bool, true,
  false, if◌then◌else◌, bit_or,
}
use desync.Common.Outcome.{Outcome, ok, panic, ◌>>=◌}
use desync.Chunk.Defs.{NullChunk}
use desync.Chunker.Defs.{Chunker, SizeError, new_chunker}
use desync.Chunker.Source.{Source, ReadError}
use desync.Format.Constants
use desync.Format.Elements.{FormatElement, entry}
use desync.Index.Defs.{Algorithm, sha512_256, sha256, IndexChunk}
use desync.Parallel.Defs.{
  WorkError, interrupted, top, produced, unsynced, sending, finished, closed, active, Worker,
  no_chunk, Synced, sync_with, read_by, fail, produce, skip_zeroes, send_null,
}
use desync.Stream.Defs.{ChunkId}

-- `ChunkingStats`
pub record ChunkingStats : Type 0 where
  pub chunks_accepted : ℕ
  pub chunks_produced : ℕ

unfoldable pub inc_accepted : ChunkingStats → ChunkingStats
inc_accepted s = record s { chunks_accepted = suc s.chunks_accepted }

unfoldable pub inc_produced : ChunkingStats → ChunkingStats
inc_produced s = record s { chunks_produced = suc s.chunks_produced }

pub record Making : Type 0 where
  -- the number of workers, and the workers
  pub count : ℕ
  pub worker : ℕ → Worker
  -- whose bucket the main routine reads
  pub at : ℕ
  -- the chunks of the index
  pub chunks : List IndexChunk
  pub stats : ChunkingStats
  -- what `IndexFromFile` returned
  pub result : Option (Option WorkError)

abbrev pub put : {A : Type 0} → ℕ → A → (ℕ → A) → ℕ → A
put j a f m = if j == m then a else f m

unfoldable pub set_worker : ℕ → Worker → Making → Making
set_worker j w s = record s { worker = put j w s.worker }

unfoldable pub count_produced : Worker → Making → Making
count_produced w s = elim w.error [ none ↦ record s { stats = inc_produced s.stats } | some e ↦ s ]

-- Behind `syncWith`: the neighbour's bucket is read, and the worker stops if there is a match.
unfoldable pub behind_sync : Worker → IndexChunk → Synced → Worker
behind_sync w c r =
    if r.matched then record w { phase = finished } else record w { phase = unsynced c r.zeroes }

unfoldable pub synced : NullChunk → ℕ → IndexChunk → Making → Making
unfolding behind_sync
synced nc j c s =
    let w = s.worker j in
    let k = w.next in
    let r = sync_with nc (s.worker k) c in
    record s { worker = put j (behind_sync w c r) (put k (read_by (s.worker k) r) s.worker) }

unfoldable pub is_empty : List IndexChunk → Bool
is_empty [] = true
is_empty (c ∷ cs) = false

-- The end of the loop of `start`: a neighbour that has stopped, with nothing in its bucket, is left.
unfoldable pub skip_next : ℕ → Making → Worker
skip_next j s =
    let w = s.worker j in
    let n = s.worker w.next in
    if ltb w.next s.count
    then (if active n.phase
        then record w { phase = top }
        else if is_empty n.results
        then record w { phase = top; next = n.next }
        else record w { phase = top })
    else record w { phase = top }

-- The main routine takes a chunk.
unfoldable pub accept : IndexChunk → List IndexChunk → Making → Making
accept c cs s = record s {
  worker = put s.at (record (s.worker s.at) { results = cs }) s.worker;
  chunks = s.chunks ++ (c ∷ []);
  stats = inc_accepted s.stats;
}

-- The main routine behind the last chunk of a worker.
unfoldable pub behind_worker : Making → Making
behind_worker s =
    let w = s.worker s.at in
    elim w.error [
      | some e ↦ record s { result = some (some e) }
      | none ↦
          if w.eof
          then record s { result = some none }
          else if ltb (suc s.at) s.count
          then record s { at = suc s.at }
          else record s { result = some none }
    ]

module _ (sum : List ℕ → ChunkId) (seek : ℕ → Source → Option ReadError × Source)
    (nc : NullChunk) where
  pub data Step : Making → Making → Type 0 where
    -- the context is cancelled
    interrupt :
        (s : Making) (j : ℕ)
        → j < s.count
        → (s.worker j).phase ≡ top
        → Step s (set_worker j (fail interrupted (s.worker j)) s)
    chunk :
        (s : Making) (j : ℕ)
        → j < s.count
        → (s.worker j).phase ≡ top
        → Step s
            (count_produced (produce sum (s.worker j)) (set_worker j (produce sum (s.worker j)) s))
    sync :
        (s : Making) (j : ℕ) (c : IndexChunk)
        → j < s.count
        → (s.worker j).phase ≡ produced c
        → (s.worker j).next < s.count
        → Step s (synced nc j c s)
    -- the last worker has no neighbour
    no_sync :
        (s : Making) (j : ℕ) (c : IndexChunk)
        → j < s.count
        → (s.worker j).phase ≡ produced c
        → s.count ≡ (s.worker j).next
        → Step s (set_worker j (record (s.worker j) { phase = top }) s)
    skip :
        (s : Making) (j : ℕ) (c : IndexChunk) (zeroes : ℕ)
        → j < s.count
        → (s.worker j).phase ≡ unsynced c zeroes
        → Step s (set_worker j (skip_zeroes seek nc c zeroes (s.worker j)) s)
    send :
        (s : Making) (j m : ℕ) (c : IndexChunk)
        → j < s.count
        → (s.worker j).phase ≡ sending (suc m) c
        → Step s (set_worker j (send_null nc m c (s.worker j)) s)
    again :
        (s : Making) (j : ℕ) (c : IndexChunk)
        → j < s.count
        → (s.worker j).phase ≡ sending 0 c
        → Step s (set_worker j (skip_next j s) s)
    close :
        (s : Making) (j : ℕ)
        → j < s.count
        → (s.worker j).phase ≡ finished
        → Step s (set_worker j (record (s.worker j) { phase = closed }) s)
    take :
        (s : Making) (c : IndexChunk) (cs : List IndexChunk)
        → s.result ≡ none
        → (s.worker s.at).results ≡ c ∷ cs
        → Step s (accept c cs s)
    advance :
        (s : Making)
        → s.result ≡ none
        → (s.worker s.at).results ≡ []
        → (s.worker s.at).phase ≡ closed
        → Step s (behind_worker s)

  pub data Reaches : Making → Making → Type 0 where
    stay : (s : Making) → Reaches s s
    then_step : (s s' s'' : Making) → Reaches s s' → Step s' s'' → Reaches s s''

-- A worker, with the chunker over the file from its offset on.
unfoldable pub new_worker : (ℕ → Source) → Chunker → ℕ → ℕ → Worker
new_worker open_at c span i = record {
  results = [];
  chunker = record c { r = open_at (span * i) };
  offset = span * i;
  phase = top;
  error = none;
  next = suc i;
  eof = false;
  sync = no_chunk;
}

-- The feature flags: those of the header of a catar file are added.
unfoldable pub digest_flag : Algorithm → ℕ
digest_flag sha512_256 = Constants.ca_format_sha512256
digest_flag sha256 = 0

unfoldable pub flags_from : Algorithm → Option FormatElement → ℕ
unfolding digest_flag
flags_from a (some (entry e)) =
    bit_or (bit_or Constants.ca_format_exclude_no_dump (digest_flag a)) e.feature_flags
flags_from a _ = bit_or Constants.ca_format_exclude_no_dump (digest_flag a)

-- The number of workers is that of the caller, or less for a small file.
unfoldable pub worker_count : ℕ → ℕ → ℕ → ℕ
worker_count size max n = if ltb (size / max + 1) n then size / max + 1 else n

unfoldable pub started : (ℕ → Source) → ℕ → ℕ → Chunker → Making
started open_at size n c = record {
  count = n;
  worker = new_worker open_at c (size / n);
  at = 0;
  chunks = [];
  stats = record { chunks_accepted = 0; chunks_produced = 0 };
  result = none;
}

-- `IndexFromFile` up to the start of the workers. The divisions panic at 0.
unfoldable pub index_from_file :
    (ℕ → ℕ) → (ℕ → Source) → ℕ → ℕ → ℕ → ℕ → ℕ → Outcome SizeError Making
unfolding started
index_from_file discriminator_from_avg open_at size n min avg max =
    let count = worker_count size max n in
    if max == 0 then panic else if count == 0 then panic else if min == 0 then panic else do
      c ← new_chunker discriminator_from_avg (open_at 0) min avg max
      ok (started open_at size count c)
