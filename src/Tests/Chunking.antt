-- ===== src/Tests/Chunking.antt =====
-- A stream of 160 bytes in three reads, of which the second is empty, through a small chunker.
use desync.Common.{
  ℕ, ◌+◌, ◌^◌, ◌%◌, ◌≡◌, refl, List, [], length, replicate, length-replicate, ◌==◌, Bool, true,
  false, arith,
}
use desync.Common.Outcome.{ok, err}
use desync.Chunker.Defs.{Chunker, next}
use desync.Chunker.Divisibility.{is_boundary_power_of_two}
use desync.Chunker.Loop.{ChunkJob, chunk_jobs, chunk_stream}
use desync.Chunker.Loop.Reread.{with_header, index_from_reader-chunk_stream, chunk_stream_refused}
use desync.Chunker.Loop.Whole.{Splits, is_sound, chunk_jobs-Splits}
use desync.Chunker.Sizes.{next_too_long}
use desync.Chunker.Source.{Source, piece, last, contents}
use desync.Chunker.Stream.{IsChunker, remaining}
use desync.Chunker.Words.{new_divider, is_boundary}
use desync.Index.Defs.{
  Index, sha256, sha512_256, uses_sha512_256, index_from_reader, write_to, index_length,
}
use desync.Stream.Defs.{ChunkId}

abbrev stream : Source
stream = piece (replicate 100 7) (piece [] (last (replicate 60 9)))

abbrev pub small_chunker : Chunker
small_chunker = record {
  r = stream;
  min = 48;
  avg = 56;
  max = 64;
  start = 0;
  buf = [];
  hit_eof = false;
  h_value = 0;
  h_window = replicate 48 0;
  h_idx = 0;
  h_discriminator = 42;
  divider = new_divider 42;
}

small_chunker-IsChunker : IsChunker small_chunker
small_chunker-IsChunker = record {
  window = omega arith;
  sizes = omega arith;
  fits = omega arith;
  at_end = λ h. cc;
}

stream-is_sound : is_sound stream ≡ true
unfolding is_sound
stream-is_sound = refl

length-remaining : length (remaining small_chunker) ≡ 160
unfolding contents
length-remaining = refl

-- A stand-in for a digest.
abbrev sum32 : List ℕ → ChunkId
sum32 b = replicate 32 (length b % 256)

length-sum32 : (b : List ℕ) → length (sum32 b) ≡ 32
length-sum32 b = length-replicate 32 (length b % 256)

-- A context that is never cancelled, and one that is seen to be at the second chunk.
abbrev never : ℕ → Bool
never k = false

abbrev at_second : ℕ → Bool
at_second k = k == 1

chunk_jobs-Splits_example :
    (jobs : List ChunkJob) × (chunk_jobs never 200 0 small_chunker ≡ ok jobs)
    × Splits sum32 small_chunker jobs []
chunk_jobs-Splits_example =
    chunk_jobs-Splits sum32 never 200 0 small_chunker (λ k. refl) small_chunker-IsChunker
      stream-is_sound (omega (arith, length-remaining)) (omega (arith, length-remaining))

index_from_reader-chunk_stream_example :
    (i : Index) × (chunk_stream sum32 never 200 small_chunker ≡ ok i)
    × (index_from_reader sha512_256 (write_to i) ≡ ok (with_header i))
    × (index_length i ≡ length (remaining small_chunker))
index_from_reader-chunk_stream_example =
    index_from_reader-chunk_stream sum32 length-sum32 never 200 small_chunker (λ k. refl)
      small_chunker-IsChunker stream-is_sound refl (omega arith) (omega (arith, length-remaining))
      (omega (arith, length-remaining))

chunk_stream_refused_example :
    (i : Index) × (chunk_stream sum32 at_second 200 small_chunker ≡ ok i)
    × (index_from_reader sha256 (write_to i) ≡ err uses_sha512_256)
chunk_stream_refused_example =
    chunk_stream_refused sum32 length-sum32 at_second 200 small_chunker small_chunker-IsChunker
      stream-is_sound refl (omega arith) (omega (arith, length-remaining))
      (omega (arith, length-remaining))

-- A chunker with all of the stream's 160 bytes in its buffer.
abbrev full_chunker : Chunker
full_chunker = record small_chunker { buf = replicate 160 7; r = last []; hit_eof = true }

-- 64 is both the smallest and the largest size, and `Next` gives 65 bytes.
abbrev equal_chunker : Chunker
equal_chunker = record full_chunker { min = 64; avg = 64 }

next_too_long_example : length (next equal_chunker).bytes ≡ equal_chunker.max + 1
next_too_long_example = next_too_long equal_chunker refl (omega arith)

is_boundary_power_of_two_example : is_boundary (new_divider (2 ^ 6)) 63 ≡ false
is_boundary_power_of_two_example = is_boundary_power_of_two 6 63 (omega arith)
