-- ===== src/Seeds/Writing.antt =====
-- `WriteInto` and `Validate` of the segments in fileseed.go and nullseed.go.
--
-- `CloneRange` is a call of the operating system, and a parameter. The file of the segment is open
-- before the write, and read as it is then: it is another file than the target, or the same where the
-- two ranges do not overlap.
pub mod Clone
use desync.Common.{
  ℕ, zero, suc, ◌+◌, ◌-◌, ◌*◌, ◌/◌, ◌%◌, ◌^◌, List, [], ◌∷◌, ltb, ◌==◌, not, Bool, true, false,
  Option, none, some, if◌then◌else◌, ◌&&◌, ◌||◌,
}
use desync.Common.Outcome.{Outcome, ok, err, panic, out_of_fuel}
use desync.Chunk.Defs.{id_equal}
use desync.Files.{File, read_at, copy_range}
use desync.Index.Defs.{IndexChunk}
use desync.Seeds.Defs.{SeedSegment, file_segment, null_section, size_of_chunks, segment_size}
use desync.Stream.Defs.{ChunkId}

pub data SegmentError : Type 0 where
  wrong_size not_opened not_aligned clone_failed short_read not_matching : SegmentError

-- The numbers of bytes copied and cloned, and the target behind the write.
abbrev pub Write : Type 0
Write = Outcome SegmentError (ℕ × ℕ) × File

-- `CloneRange`: target, source, its offset, the length, and the offset in the target.
abbrev pub CloneRange : Type 0
CloneRange = File → File → ℕ → ℕ → ℕ → Option File

unfoldable pub min_of : ℕ → ℕ → ℕ
min_of a b = if ltb a b then a else b

-- How much `copy` copies: up to the end of the source, and nothing for a length that is negative as
-- an int64.
unfoldable pub copied_of : File → ℕ → ℕ → ℕ
unfolding min_of
copied_of src from n = min_of (if ltb n (2 ^ 63) then n else 0) (src.size - from)

unfoldable pub copy : File → File → ℕ → ℕ → ℕ → ℕ × File
copy dst src from n off = let k : ℕ = copied_of src from n in (k, copy_range dst src from k off)

abbrev pub word : ℕ → ℕ
word n = n % 2 ^ 64

abbrev pub minus : ℕ → ℕ → ℕ
minus a b = (word a + 2 ^ 64 - word b) % 2 ^ 64

-- The blocks between the first boundary behind `off` and the last one before the end.
unfoldable pub align_start : ℕ → ℕ → ℕ
align_start off block = word ((off / block + 1) * block)

unfoldable pub align_end : ℕ → ℕ → ℕ → ℕ
align_end off n block = word (off + n) / block * block

module _ (clone_range : CloneRange) where
  -- The part in front of the blocks, the part behind them, and the blocks.
  unfoldable pub clone : File → File → ℕ → ℕ → ℕ → ℕ → Write
  clone dst src from n off block =
      if not (from % block == off % block)
      then (err not_aligned, dst)
      else (let start : ℕ = align_start from block in
          let end : ℕ = align_end from n block in
          let dst_start : ℕ = align_start off block in
          let len : ℕ = minus end start in
          let (c1, dst1) = copy dst src from (minus start from) off in
          let (c2, dst2) = copy dst1 src end (minus (from + n) end) (word (dst_start + len)) in
          elim (clone_range dst2 src start len dst_start) [
            | some dst3 ↦ (ok (word (c1 + c2), len), dst3)
            | none ↦ (err clone_failed, dst2)
          ])

  unfoldable pub write_chunks : Option File → IndexChunk → Bool → File → ℕ → ℕ → ℕ → Write
  write_chunks none c reflink dst off n block = (err not_opened, dst)
  write_chunks (some src) c reflink dst off n block =
      let copied : Write = (let (k, dst') = copy dst src c.start n off in (ok (k, 0), dst')) in
      if not reflink
      then copied
      else if block == 0
      then (panic, dst)
      else if not (c.start % block == off % block)
      then copied
      else clone dst src c.start n off block

  -- The chunks of a segment: a panic where there are none and the file is there.
  unfoldable pub write_file_segment :
      Option File → List IndexChunk → Bool → File → ℕ → ℕ → ℕ → Write
  write_file_segment src [] reflink dst off n block =
      if not (n == 0)
      then (err wrong_size, dst)
      else elim src [ none ↦ (err not_opened, dst) | some f ↦ (panic, dst) ]
  write_file_segment src (c ∷ chunks) reflink dst off n block =
      if not (n == size_of_chunks (c ∷ chunks))
      then (err wrong_size, dst)
      else write_chunks src c reflink dst off n block

-- `Validate`: every chunk is read from the file and its digest compared.
unfoldable pub validate :
    (List ℕ → ChunkId) → File → List IndexChunk → Outcome SegmentError (Unit {0})
validate sum f [] = ok tt
validate sum f (c ∷ chunks) =
    let rest = validate sum f chunks in
    elim (read_at f c.size c.start) [
      | none ↦ err short_read
      | some b ↦ if id_equal (sum b) c.id then rest else err not_matching
    ]
