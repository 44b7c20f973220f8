-- ===== src/Parallel/Whole.antt =====
-- What `IndexFromFile` of make.go gives.
use desync.Common.{
  ℕ, suc, ◌+◌, ◌*◌, ◌/◌, ◌%◌, ◌^◌, ◌≤◌, ◌<◌, ◌≡◌, ◌≢◌, refl, sym, ap, subst, ◌∙◌, List, [], ◌∷◌,
  ◌++◌, length, length-replicate, drop, replicate, All, true, false, inl, Option, none, some, arith,
}
use desync.Common.Outcome.{ok}
use desync.Chunk.Defs.{new_null_chunk, zero_id}
use desync.Chunker.Defs.{Chunker}
use desync.Chunker.Source.{Source, ReadError, contents}
use desync.Index.Defs.{IndexChunk}
use desync.Index.Layout.{Tiles}
use desync.Parallel.Accurate.{IsTrueIn}
use desync.Parallel.Defs.{
  Phase, top, produced, unsynced, sending, finished, closed, active, Worker, end_of,
}
use desync.Parallel.Invariant.{position, IsMaking}
use desync.Parallel.Reachable.{
  run-IsMaking, Reaches-IsMaking, run_end, new_chunker-IsChunker, index_from_file-started,
  index_from_file-IsMaking,
}
use desync.Parallel.Sound.{IsSound, Step-IsSound}
use desync.Parallel.Sync.{Chain}
use desync.Parallel.System.{
  Making, Reaches, stay, then_step, index_from_file, started, new_worker, worker_count,
}
use desync.Parallel.Work.{SeeksForward}
use desync.Parallel.Zeroes.{IsChunkOf}
use desync.Stream.Defs.{ChunkId}
use native.Mathlib.Nat.{div-mul-le_self, mul-le-mul_left}

-- Offsets within the file do not wrap.
Chain-Tiles :
    (sum : List ℕ → ChunkId) (file : List ℕ) (cs : List IndexChunk) (p q : ℕ)
    → length file < 2 ^ 64
    → All (IsChunkOf sum file) cs
    → p ≤ length file
    → Chain p cs q
    → Tiles p cs q × (q ≤ length file)
unfolding end_of
Chain-Tiles sum file [] p q fits a b t = (t, omega (arith, t))
Chain-Tiles sum file (c ∷ cs) p q fits ((inside, row), a) b (h, t) =
    let e : end_of c ≡ p + c.size = omega (arith, h, inside) in
    let (tiles, end) =
      Chain-Tiles sum file cs (p + c.size) q fits a (omega (arith, h, inside))
        (subst (λ x. Chain x cs q) e t) in
    ((h, tiles), end)

module _ (sum : List ℕ → ChunkId) (seek : ℕ → Source → Option ReadError × Source)
    (forward : SeeksForward seek) (file : List ℕ) (fits : length file < 2 ^ 64)
    (open_at : ℕ → Source) (opens : (p : ℕ) → contents (open_at p) ≡ drop p file) (d : ℕ → ℕ)
    (n min avg max : ℕ) (sizes : (min < max) × (10 * max < 2 ^ 63))
    (only : (b : List ℕ) → sum b ≡ sum (replicate max 0) → b ≡ replicate max 0)
    (not_zero : sum (replicate max 0) ≢ zero_id) where
  some_size : 0 < max
  some_size = omega (arith, sizes.0)

  abbrev IsSound' : Making → Type 0
  IsSound' = IsSound sum max file fits some_size only not_zero seek forward

  started-IsSound :
      (count : ℕ) (c : Chunker)
      → c.start ≡ 0
      → c.buf ≡ []
      → c.max ≡ max
      → IsSound' (started open_at (length file) count c)
  unfolding started new_worker
  started-IsSound count c at_start empty same_max = record {
    workers = λ i h.
        let span = length file / count in
        let at_most : span * i ≤ length file =
          let a = mul-le-mul_left {m = i} {n = count} span (omega (arith, h)) in
          let b = div-mul-le_self (length file) count in omega (arith, a, b) in
        let here : (span * i + c.start) % 2 ^ 64 ≡ span * i = omega (arith, at_most, at_start) in
        record {
          rows = tt;
          known = inl refl;
          placed = λ a. record {
            ahead =
                ap (λ (b : List ℕ). b ++ contents (open_at (span * i))) empty
                ∙ opens (span * i)
                ∙ ap (λ p. drop p file) (sym here);
            within = omega (arith, here, at_most);
            same_max = same_max;
            not_eof = refl;
          };
          phase = tt;
        };
    chunks = tt;
  }

  Reaches-IsSound :
      (s s' : Making)
      → Reaches sum seek (new_null_chunk sum max) s s'
      → IsMaking max s
      → IsSound' s
      → IsSound' s'
  unfolding new_null_chunk
  Reaches-IsSound s s' (stay r) t v = v
  Reaches-IsSound s s' (then_step q q' q'' r st) t v =
      Step-IsSound sum max file fits some_size only not_zero seek forward q' q'' st
        (Reaches-IsMaking max sum seek (new_null_chunk sum max) forward (length-replicate max 0) q
          q' r t)
        (Reaches-IsSound q q' r t v)

  -- Where a worker has stopped at the end of the file.
  at_end-position :
      (w : Worker) (p : Phase)
      → IsTrueIn sum max file fits some_size only not_zero w p
      → active p ≡ false
      → w.eof ≡ true
      → position w ≡ length file
  unfolding active
  at_end-position w top i e h = cc
  at_end-position w (produced c) i e h = cc
  at_end-position w (unsynced c z) i e h = cc
  at_end-position w (sending m c) i e h = cc
  at_end-position w finished i e h = i h
  at_end-position w closed i e h = i h

  module _ (s s' : Making) (starts : index_from_file d open_at (length file) n min avg max ≡ ok s)
      (run : Reaches sum seek (new_null_chunk sum max) s s') where
    start-IsSound : IsSound' s
    start-IsSound =
        let (c, made, positive, is) =
          index_from_file-started d open_at (length file) n min avg max s starts in
        let (v, at_start, empty, same_max) =
          new_chunker-IsChunker d (open_at 0) (open_at 0) min avg max c sizes made in
        subst IsSound' is
          (started-IsSound (worker_count (length file) max n) c at_start empty same_max)

    run-IsSound : IsSound' s'
    run-IsSound =
        Reaches-IsSound s s' run
          (index_from_file-IsMaking d open_at (length file) n min avg max s sizes starts)
          start-IsSound

    -- The file is shorter than 2 ^ 64 bytes, opening it at a position gives the bytes from there
    -- on, a seek forward skips bytes, the smallest size is below the largest, ten times the
    -- largest is below 2 ^ 63, no other data has the digest of the null chunk, and that is not
    -- the zero id. Then, whatever the order in which the workers and the main routine take their
    -- steps, the chunks in the index follow one another from the start of the file without a gap,
    -- lie within it, and each has the digest of its bytes.
    pub index_from_file_sound :
        All (IsChunkOf sum file) s'.chunks
        × ((end : ℕ) × Tiles 0 s'.chunks end × (end ≤ length file))
    index_from_file_sound =
        let t =
          run-IsMaking sum seek forward d open_at (length file) n min avg max sizes s s' starts
            run in
        let a = run-IsSound.chunks in
        let (tiles, end) =
          Chain-Tiles sum file s'.chunks 0 (t.front t.lead) fits a (omega arith) t.accepted in
        (a, (t.front t.lead, tiles, end))

    -- The file is shorter than 2 ^ 64 bytes, opening it at a position gives the bytes from there
    -- on, a seek forward skips bytes, the smallest size is below the largest, ten times the
    -- largest is below 2 ^ 63, no other data has the digest of the null chunk, and that is not
    -- the zero id. Then, whatever the order of the steps, if `IndexFromFile` has returned without
    -- an error, and of the workers only the last may have reached the end of the file, the chunks
    -- of the index follow one another without a gap from the start of the file to its end, and
    -- each has the digest of its bytes.
    pub index_from_file_whole :
        s'.result ≡ some none
        → ((j : ℕ) → suc j < s'.count → (s'.worker j).eof ≡ false)
        → Tiles 0 s'.chunks (length file) × All (IsChunkOf sum file) s'.chunks
    index_from_file_whole returned only_last =
        let t =
          run-IsMaking sum seek forward d open_at (length file) n min avg max sizes s s' starts
            run in
        let (is_last, at_end, chain) =
          run_end sum seek forward d open_at (length file) n min avg max sizes s s' starts run
            returned only_last in
        let (p, q, stopped) = t.returned returned in
        let w = s'.worker s'.at in
        let end =
          at_end-position w w.phase (run-IsSound.workers s'.at (omega (arith, is_last))).phase
            stopped at_end in
        let a = run-IsSound.chunks in
        (
          (Chain-Tiles sum file s'.chunks 0 (length file) fits a (omega arith)
              (subst (λ q. Chain 0 s'.chunks q) end chain)).0,
          a,
        )
