-- ===== src/Chunker/Loop.antt =====
-- The loop over `Next` of `ChunkStream` in index.go, and the index rows that its jobs give.
pub mod Whole
pub mod Reread
use desync.Common.{
  ℕ, zero, suc, ◌+◌, Bool, List, [], ◌∷◌, length, map, ◌==◌, bit_or, Option, none, some,
  if◌then◌else◌,
}
use desync.Common.Outcome.{Outcome, ok, err, panic, out_of_fuel}
use desync.Chunker.Defs.{Chunker, Split, next}
use desync.Chunker.Source.{ReadError}
use desync.Format.Constants
use desync.Index.Defs.{Index, IndexChunk}
use desync.Stream.Defs.{ChunkId}

-- A job: where a chunk starts, and its data.
pub record ChunkJob : Type 0 where
  pub start : ℕ
  pub bytes : List ℕ

-- One job is put in front of the jobs of the rounds that follow.
unfoldable pub with_job :
    ChunkJob → Outcome ReadError (List ChunkJob) → Outcome ReadError (List ChunkJob)
with_job j (ok jobs) = ok (j ∷ jobs)
with_job j r = r

-- What a round makes of the result of `Next`; `rest` are the rounds behind it. `done` says that the
-- context is seen to be cancelled before the job is sent: the loop ends without an error.
unfoldable pub after_next :
    Bool → (Chunker → Outcome ReadError (List ChunkJob)) → Split → Outcome ReadError (List ChunkJob)
unfolding with_job
after_next done rest s = elim s.error [
  | some e ↦ err e
  | none ↦
      if length s.bytes == 0
      then ok []
      else if done
      then ok []
      else with_job (record { start = s.start; bytes = s.bytes }) (rest s.chunker)
]

-- Rounds from the chunk `num` on, until the data is empty or the context is cancelled: `cancelled` says
-- at which chunks it is seen to be.
unfoldable pub chunk_jobs : (ℕ → Bool) → ℕ → ℕ → Chunker → Outcome ReadError (List ChunkJob)
chunk_jobs cancelled zero num c = out_of_fuel
chunk_jobs cancelled (suc fuel) num c =
    after_next (cancelled num) (chunk_jobs cancelled fuel (num + 1)) (next c)

-- The row of the index that a worker records for a job, with the digest `sum`.
unfoldable pub index_row : (List ℕ → ChunkId) → ChunkJob → IndexChunk
index_row sum j = record { id = sum j.bytes; start = j.start; size = length j.bytes }

-- The index that is built at the end, with no header and with the flag of SHA512/256 whatever the
-- digest is.
unfoldable pub index_of_jobs : (List ℕ → ChunkId) → Chunker → List ChunkJob → Index
index_of_jobs sum c jobs = record {
  index = record {
    header = record { size = 0; type = 0 };
    feature_flags = bit_or Constants.ca_format_exclude_no_dump Constants.ca_format_sha512256;
    chunk_size_min = c.min;
    chunk_size_avg = c.avg;
    chunk_size_max = c.max;
  };
  chunks = map (index_row sum) jobs;
}

index_result :
    (List ℕ → ChunkId) → Chunker → Outcome ReadError (List ChunkJob) → Outcome ReadError Index
index_result sum c (ok jobs) = ok (index_of_jobs sum c jobs)
index_result sum c (err e) = err e
index_result sum c panic = panic
index_result sum c out_of_fuel = out_of_fuel

-- `ChunkStream` with a store that takes every chunk; the workers then give no error, whether the
-- context is cancelled or not.
unfoldable pub chunk_stream :
    (List ℕ → ChunkId) → (ℕ → Bool) → ℕ → Chunker → Outcome ReadError Index
unfolding index_result
chunk_stream sum cancelled fuel c = index_result sum c (chunk_jobs cancelled fuel 0 c)
