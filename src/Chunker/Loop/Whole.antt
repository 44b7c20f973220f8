-- ===== src/Chunker/Loop/Whole.antt =====
-- About the loop of `ChunkStream` of index.go over a whole stream.
use desync.Common.{
  ℕ, zero, suc, ◌+◌, ◌%◌, ◌-◌, ◌*◌, ◌^◌, ◌≤◌, ◌<◌, ◌≡◌, refl, sym, ap, subst, ◌∙◌, List, [], ◌∷◌,
  ◌++◌, length, map, ◌==◌, length-append, append_assoc, Option, none, some, Bool, true, false,
  Bool-cases, inl, inr, arith, ==_iff,
}
use desync.Common.Outcome.{ok}
use desync.Chunker.Defs.{
  Chunker, Split, below_int, fill_buffer, filled, reported, split, next_in_buffer, after_fill, next,
}
use desync.Chunker.Loop.{ChunkJob, after_next, with_job, chunk_jobs, index_row}
use desync.Chunker.Source.{
  Source, ReadError, end_of_file, broken, piece, last, eof, failed, fill, before,
}
use desync.Chunker.Stream.{IsChunker, IsNextOf, remaining, next-IsNextOf}
use desync.Index.Layout.{Tiles}
use desync.Stream.Defs.{ChunkId}

-- Whether a source ends without an error.
unfoldable pub is_sound : Source → Bool
is_sound (piece b s) = is_sound s
is_sound (failed e) = false
is_sound (last b) = true
is_sound eof = true

unfoldable pub is_clean : Option ReadError → Bool
is_clean (some (broken e)) = false
is_clean (some end_of_file) = true
is_clean none = true

fill-is_sound : (room : ℕ) (s : Source) → is_sound s ≡ true → is_sound (fill room s).source ≡ true
unfolding fill is_sound before
fill-is_sound room eof h = ground arith
fill-is_sound room (failed e) h = ground arith
fill-is_sound room (last b) h = ground arith
fill-is_sound room (piece b s) h = ground (arith, fill-is_sound (room - length b) s h)

fill-is_clean : (room : ℕ) (s : Source) → is_sound s ≡ true → is_clean (fill room s).error ≡ true
unfolding fill is_sound is_clean before
fill-is_clean room eof h = ground arith
fill-is_clean room (failed e) h = ground arith
fill-is_clean room (last b) h = ground arith
fill-is_clean room (piece b s) h = ground (arith, fill-is_clean (room - length b) s h)

reported-is_clean : (e : Option ReadError) → is_clean e ≡ true → (reported e).0 ≡ none
unfolding reported is_clean
reported-is_clean none h = refl
reported-is_clean (some end_of_file) h = refl
reported-is_clean (some (broken e)) h = cc

module _ (c : Chunker) (sound : is_sound c.r ≡ true) where
  fill_buffer_sound : ((fill_buffer c).0 ≡ none) × (is_sound (fill_buffer c).1.r ≡ true)
  unfolding fill_buffer filled
  fill_buffer_sound =
      let room = 10 * c.max % 2 ^ 64 - length c.buf in
      ground (
        arith,
        fill-is_sound room c.r sound,
        reported-is_clean (fill room c.r).error (fill-is_clean room c.r sound),
      )

  next_in_buffer_sound :
      ((next_in_buffer c).error ≡ none) × (is_sound (next_in_buffer c).chunker.r ≡ true)
  unfolding next_in_buffer split
  next_in_buffer_sound = ground arith

next_sound :
    (c : Chunker)
    → is_sound c.r ≡ true
    → ((next c).error ≡ none) × (is_sound (next c).chunker.r ≡ true)
unfolding next after_fill
next_sound c h = elim (Bool-cases (below_int (length c.buf) c.max)) [
  | inl short ↦
      let (e, s) = fill_buffer_sound c h in
      let (a, b) = next_in_buffer_sound (fill_buffer c).1 s in ground arith
  | inr full ↦ rw (next, full) (next_in_buffer_sound c h)
]

-- The data of the jobs, one behind the other.
abbrev pub data_of_jobs : List ChunkJob → List ℕ
data_of_jobs [] = []
data_of_jobs (j ∷ jobs) = j.bytes ++ data_of_jobs jobs

-- The sizes: none is above `max`, and all but the last are above `min`.
abbrev pub HasSizes : ℕ → ℕ → List ChunkJob → Type 0
HasSizes lo hi [] = Unit
HasSizes lo hi (j ∷ []) = (0 < length j.bytes) × (length j.bytes ≤ hi)
HasSizes lo hi (j ∷ k ∷ jobs) =
    (lo < length j.bytes) × (length j.bytes ≤ hi) × HasSizes lo hi (k ∷ jobs)

-- Jobs that split the stream of the chunker `c`, up to the bytes `left` at its end.
pub record Splits (sum : List ℕ → ChunkId) (c : Chunker) (jobs : List ChunkJob) (left : List ℕ)
    : Type 0 where
  pub bytes : data_of_jobs jobs ++ left ≡ remaining c
  pub rows : Tiles c.start (map (index_row sum) jobs) (c.start + length (data_of_jobs jobs))
  pub sizes : HasSizes c.min c.max jobs

-- The job that a round sends.
abbrev job_of : Split → ChunkJob
job_of s = record { start = s.start; bytes = s.bytes }

data_of_jobs-cons :
    (lo hi : ℕ) (k : ChunkJob) (jobs : List ChunkJob)
    → HasSizes lo hi (k ∷ jobs)
    → 0 < length (data_of_jobs (k ∷ jobs))
data_of_jobs-cons lo hi k [] (h, b) = omega (arith, length-append k.bytes [])
data_of_jobs-cons lo hi k (l ∷ jobs) (h, b, r) =
    omega (arith, length-append k.bytes (data_of_jobs (l ∷ jobs)))

HasSizes-same :
    {lo lo' hi hi' : ℕ} (jobs : List ChunkJob)
    → lo ≡ lo'
    → hi ≡ hi'
    → HasSizes lo hi jobs
    → HasSizes lo' hi' jobs
HasSizes-same {lo' = lo'} {hi = hi} jobs p q h =
    subst (λ x. HasSizes lo' x jobs) q (subst (λ x. HasSizes x hi jobs) p h)

length-nil : (xs : List ℕ) → length xs ≡ 0 → xs ≡ []
length-nil [] h = refl
length-nil (x ∷ xs) h = absurd (omega arith)

module _ (sum : List ℕ → ChunkId) where
  HasSizes-cons :
      (c : Chunker) (s : Split) (jobs : List ChunkJob) (left : List ℕ)
      → IsNextOf c s
      → s.error ≡ none
      → 0 < length s.bytes
      → Splits sum s.chunker jobs left
      → HasSizes c.min c.max (job_of s ∷ jobs)
  HasSizes-cons c s [] left n e pos p = (pos, n.at_most e)
  HasSizes-cons c s (k ∷ jobs) left n e pos p = elim (n.above_min e) [
    | inl above ↦ (above, n.at_most e, HasSizes-same (k ∷ jobs) n.same_min n.same_max p.sizes)
    | inr done ↦ absurd (
        omega (
          arith,
          data_of_jobs-cons _ _ k jobs p.sizes,
          length-append (data_of_jobs (k ∷ jobs)) left,
          ap (λ (l : List ℕ). length l) (p.bytes ∙ done),
        ))
  ]

  Splits-cons :
      (c : Chunker) (s : Split) (jobs : List ChunkJob) (left : List ℕ)
      → IsNextOf c s
      → s.error ≡ none
      → 0 < length s.bytes
      → c.start + length (remaining c) < 2 ^ 64
      → Splits sum s.chunker jobs left
      → Splits sum c (job_of s ∷ jobs) left
  unfolding index_row
  Splits-cons c s jobs left n e pos fits p =
      let total : length s.bytes + length (remaining s.chunker) ≡ length (remaining c) =
        sym (length-append s.bytes (remaining s.chunker)) ∙ ap (λ (l : List ℕ). length l) n.kept in
      let moved : s.chunker.start ≡ c.start + length s.bytes = omega (arith, n.moved) in
      record {
        bytes =
            append_assoc s.bytes (data_of_jobs jobs) left ∙ ap (λ l. s.bytes ++ l) p.bytes ∙ n.kept;
        rows = (
          n.start,
          rw (← moved) (
              subst (Tiles s.chunker.start (map (index_row sum) jobs))
                (omega (arith, length-append s.bytes (data_of_jobs jobs))) p.rows),
        );
        sizes = HasSizes-cons c s jobs left n e pos p;
      }

  Splits-nil : (c : Chunker) → Splits sum c [] (remaining c)
  Splits-nil c = record { bytes = refl; rows = omega arith; sizes = tt }

  -- The jobs split the stream; if the context is never cancelled, nothing of it is left.
  pub chunk_jobs-cancelled :
      (cancelled : ℕ → Bool) (fuel num : ℕ) (c : Chunker)
      → IsChunker c
      → is_sound c.r ≡ true
      → length (remaining c) < fuel
      → c.start + length (remaining c) < 2 ^ 64
      → (jobs : List ChunkJob) × (left : List ℕ) × (chunk_jobs cancelled fuel num c ≡ ok jobs)
        × Splits sum c jobs left
        × (((k : ℕ) → cancelled k ≡ false) → left ≡ [])
  unfolding chunk_jobs after_next with_job
  chunk_jobs-cancelled cancelled zero num c w h f t = elim f [ ]
  chunk_jobs-cancelled cancelled (suc fuel) num c w h f t =
      let n = next-IsNextOf c w in
      let (e, sound) = next_sound c h in
      let total : length (next c).bytes + length (remaining (next c).chunker)
          ≡ length (remaining c) =
        sym (length-append (next c).bytes (remaining (next c).chunker))
        ∙ ap (λ (l : List ℕ). length l) n.kept in
      elim (Bool-cases (length (next c).bytes == 0)) [
        | inl empty ↦
            let none_left : remaining (next c).chunker ≡ [] = elim (n.above_min e) [
              | inl above ↦ absurd (ground arith)
              | inr done ↦ done
            ] in
            let ended : remaining c ≡ [] =
              length-nil (remaining c)
                (omega (arith, ap (λ (l : List ℕ). length l) none_left, (==_iff _ _).0 empty)) in
            ([], remaining c, rw (chunk_jobs, after_next, e, empty) refl, Splits-nil c, λ k. ended)
        | inr some_data ↦ elim (Bool-cases (cancelled num)) [
          | inl done ↦ (
            [],
            remaining c,
            rw (chunk_jobs, after_next, e, some_data, done) refl,
            Splits-nil c,
            λ never. let bad = never num in cc,
          )
          | inr on ↦
              let pos : 0 < length (next c).bytes = ground arith in
              let (jobs, left, got, p, whole) =
                chunk_jobs-cancelled cancelled fuel (num + 1) (next c).chunker n.valid sound
                  (omega arith) (omega (arith, n.moved)) in
              (
                job_of (next c) ∷ jobs,
                left,
                rw (chunk_jobs, after_next, e, some_data, on, got, with_job) refl,
                Splits-cons c (next c) jobs left n e pos t p,
                whole,
              )
        ]
      ]

  -- The context is never cancelled; `c` has sizes that are accepted, the smallest below the
  -- largest, ten times the largest below 2 ^ 63; no read fails, and the stream is shorter than
  -- the fuel and ends within 64 bits. Then the loop over `Next` ends without an error, and its
  -- jobs split the stream: their data is the stream, their index rows tile it, none is larger
  -- than the largest size, and all but the last are larger than the smallest size.
  pub chunk_jobs-Splits :
      (cancelled : ℕ → Bool) (fuel num : ℕ) (c : Chunker)
      → ((k : ℕ) → cancelled k ≡ false)
      → IsChunker c
      → is_sound c.r ≡ true
      → length (remaining c) < fuel
      → c.start + length (remaining c) < 2 ^ 64
      → (jobs : List ChunkJob) × (chunk_jobs cancelled fuel num c ≡ ok jobs) × Splits sum c jobs []
  chunk_jobs-Splits cancelled fuel num c never w h f t =
      let (jobs, left, got, p, whole) = chunk_jobs-cancelled cancelled fuel num c w h f t in
      (jobs, got, subst (Splits sum c jobs) (whole never) p)
