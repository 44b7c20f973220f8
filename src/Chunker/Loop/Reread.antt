-- ===== src/Chunker/Loop/Reread.antt =====
-- About `ChunkStream` together with `WriteTo` and `IndexFromReader`, all of index.go.
use desync.Common.{
  ℕ, ◌+◌, ◌^◌, ◌<◌, ◌≡◌, refl, sym, ap, ◌∙◌, subst, Bool, false, length-append, append-nil, List,
  [], ◌∷◌, length, map, All, true, arith,
}
use desync.Common.Outcome.{ok, err}
use desync.Chunker.Defs.{Chunker}
use desync.Chunker.Loop.{ChunkJob, chunk_stream, index_row, index_of_jobs}
use desync.Chunker.Loop.Whole.{
  HasSizes, Splits, data_of_jobs, chunk_jobs-Splits, chunk_jobs-cancelled, is_sound,
}
use desync.Chunker.Stream.{IsChunker, remaining}
use desync.Index.Defs.{
  Index, sha256, sha512_256, uses_sha512_256, index_element, table_element, check_digest,
  index_from_reader, write_to, index_length,
}
use desync.Index.RoundTrip.{
  IsChunk, IsIndexOf, index_from_reader-write_to, index_from_reader_refused, index_length_lem,
}
use desync.Index.Layout.{Tiles}
use desync.Stream.Defs.{ChunkId}

rows-IsChunk :
    (sum : List ℕ → ChunkId) (lo hi : ℕ) (jobs : List ChunkJob)
    → ((b : List ℕ) → length (sum b) ≡ 32)
    → HasSizes lo hi jobs
    → All (IsChunk hi) (map (index_row sum) jobs)
unfolding index_row
rows-IsChunk sum lo hi [] named h = tt
rows-IsChunk sum lo hi (j ∷ []) named (pos, most) = ((named j.bytes, pos, most), tt)
rows-IsChunk sum lo hi (j ∷ k ∷ jobs) named (above, most, h) =
    ((named j.bytes, omega arith, most), rows-IsChunk sum lo hi (k ∷ jobs) named h)

-- An index as it is read back: with the header.
abbrev pub with_header : Index → Index
with_header i = record i { index = index_element i }

module _ (sum : List ℕ → ChunkId) (c : Chunker) (jobs : List ChunkJob) (left : List ℕ) where
  index_of_jobs-IsIndexOf :
      ((b : List ℕ) → length (sum b) ≡ 32)
      → IsChunker c
      → c.start ≡ 0
      → c.avg < 2 ^ 64
      → length (remaining c) < 2 ^ 64
      → Splits sum c jobs left
      → IsIndexOf sha512_256 (with_header (index_of_jobs sum c jobs)) (length (data_of_jobs jobs))
  unfolding index_of_jobs index_element check_digest
  index_of_jobs-IsIndexOf named w zero_start avg total p = record {
    size = refl;
    type = refl;
    feature_flags = omega arith;
    chunk_size_min = omega (arith, w.sizes, w.fits);
    chunk_size_avg = avg;
    chunk_size_max = omega (arith, w.fits);
    digest = refl;
    tiles = subst (Tiles 0 (map (index_row sum) jobs)) (omega arith) (
        subst (λ x. Tiles x (map (index_row sum) jobs) (x + length (data_of_jobs jobs))) zero_start
          p.rows);
    total_fits =
        omega
          (arith, ap (λ (l : List ℕ). length l) p.bytes, length-append (data_of_jobs jobs) left);
    chunks = rows-IsChunk sum c.min c.max jobs named p.sizes;
  }

module _ (sum : List ℕ → ChunkId) (named : (b : List ℕ) → length (sum b) ≡ 32)
    (cancelled : ℕ → Bool) where
  -- The digest has 32 bytes and the context is never cancelled; `c` is at the start, has sizes
  -- that are accepted, the smallest below the largest, ten times the largest below 2 ^ 63, and an
  -- average of 64 bits; no read fails, and the stream is shorter than the fuel and than 2 ^ 64.
  -- Then the index of the stream is made, its length is that of the stream, and a reader that
  -- uses SHA512/256 reads it back from what `WriteTo` writes, with its header filled in.
  pub index_from_reader-chunk_stream :
      (fuel : ℕ) (c : Chunker)
      → ((k : ℕ) → cancelled k ≡ false)
      → IsChunker c
      → is_sound c.r ≡ true
      → c.start ≡ 0
      → c.avg < 2 ^ 64
      → length (remaining c) < fuel
      → length (remaining c) < 2 ^ 64
      → (i : Index) × (chunk_stream sum cancelled fuel c ≡ ok i)
        × (index_from_reader sha512_256 (write_to i) ≡ ok (with_header i))
        × (index_length i ≡ length (remaining c))
  unfolding chunk_stream write_to index_element table_element index_length
  index_from_reader-chunk_stream fuel c never w h z avg enough total =
      let (jobs, got, p) =
        chunk_jobs-Splits sum cancelled fuel 0 c never w h enough (omega arith) in
      let i = index_of_jobs sum c jobs in
      let v = index_of_jobs-IsIndexOf sum c jobs [] named w z avg total p in
      let all : length (data_of_jobs jobs) ≡ length (remaining c) =
        ap (λ (l : List ℕ). length l) (sym (append-nil (data_of_jobs jobs)) ∙ p.bytes) in
      (
        i,
        rw (chunk_stream, got) refl,
        index_from_reader-write_to sha512_256 (with_header i) (length (data_of_jobs jobs)) v,
        index_length_lem sha512_256 (with_header i) (length (data_of_jobs jobs)) v ∙ all,
      )

  -- The digest has 32 bytes; `c` is at the start, has sizes that are accepted, the smallest below
  -- the largest, ten times the largest below 2 ^ 63, and an average of 64 bits; no read fails,
  -- and the stream is shorter than the fuel and than 2 ^ 64. Then, wherever the context may be
  -- cancelled, an index is made, and a reader that uses SHA256 refuses it, though it may have
  -- been made with that digest.
  pub chunk_stream_refused :
      (fuel : ℕ) (c : Chunker)
      → IsChunker c
      → is_sound c.r ≡ true
      → c.start ≡ 0
      → c.avg < 2 ^ 64
      → length (remaining c) < fuel
      → length (remaining c) < 2 ^ 64
      → (i : Index) × (chunk_stream sum cancelled fuel c ≡ ok i)
        × (index_from_reader sha256 (write_to i) ≡ err uses_sha512_256)
  unfolding chunk_stream write_to index_element table_element
  chunk_stream_refused fuel c w h z avg enough total =
      let (jobs, left, got, p, whole) =
        chunk_jobs-cancelled sum cancelled fuel 0 c w h enough (omega arith) in
      let i = index_of_jobs sum c jobs in
      let v = index_of_jobs-IsIndexOf sum c jobs left named w z avg total p in
      (
        i,
        rw (chunk_stream, got) refl,
        index_from_reader_refused (with_header i) (length (data_of_jobs jobs)) v,
      )
