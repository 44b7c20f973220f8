-- ===== src/Assemble.antt =====
-- `writeChunk` of assemble.go.
--
-- The target is an open file; the statistics are left out. Copying within the target, where the
-- two ranges overlap, is a parameter.
pub mod Sound
use desync.Common.{
  ℕ, ◌+◌, List, [], ◌∷◌, length, ◌==◌, not, ltb, ◌&&◌, Bool, false, Option, none, some,
  if◌then◌else◌,
}
use desync.Common.Outcome.{Outcome, ok, err, panic, out_of_fuel}
use desync.Chunk.Defs.{Chunk, Convert, StoreError, id_equal, data_of}
use desync.Files.{File, read_at, write_at}
use desync.Index.Defs.{IndexChunk}
use desync.Seeds.Defs.{SeedSegment, file_segment, null_section, size_of_chunks}
use desync.Seeds.SelfSeed.{SelfSeed, get_chunk}
use desync.Seeds.Writing.{CloneRange, SegmentError, Write, write_file_segment}
use desync.Store.Defs.{Store}
use desync.Stream.Defs.{ChunkId}

pub data AssembleError : Type 0 where
  target_too_short unexpected_size : AssembleError
  segment_failed : SegmentError → AssembleError
  store_failed : StoreError → AssembleError

-- What is returned, the target and the state of the store.
abbrev pub Written : Type 0 → Type 0
Written W = Outcome AssembleError (Unit {0}) × File × W

-- What copying and cloning a range within one file returns and leaves where source and target overlap,
-- so that the standard library reads what it has written: the file, the chunks of the segment, whether
-- it is cloned, the offset and the length in the target, and the size of a block.
abbrev pub Overlapping : Type 0
Overlapping = File → List IndexChunk → Bool → ℕ → ℕ → ℕ → Write

abbrev pub overlaps : List IndexChunk → IndexChunk → Bool
overlaps [] c = false
overlaps (d ∷ cs) c =
    ltb c.start (d.start + size_of_chunks (d ∷ cs)) && ltb d.start (c.start + c.size)

module _ {W : Type 0} where
  unfoldable pub of_segment : Write → W → Written W
  of_segment (ok n, f) w = (ok tt, f, w)
  of_segment (err e, f) w = (err (segment_failed e), f, w)
  of_segment (panic, f) w = (panic, f, w)
  of_segment (out_of_fuel, f) w = (out_of_fuel, f, w)

  module _ (compress decompress : Convert) (sum : List ℕ → ChunkId) (clone_range : CloneRange)
      (overlapping : Overlapping) (s : Store W) where
    unfoldable pub from_data : IndexChunk → Outcome StoreError (List ℕ) → File → W → Written W
    from_data c (ok b) f w =
        if not (c.size == length b)
        then (err unexpected_size, f, w)
        else (ok tt, write_at f b c.start, w)
    from_data c (err e) f w = (err (store_failed e), f, w)
    from_data c panic f w = (panic, f, w)
    from_data c out_of_fuel f w = (out_of_fuel, f, w)

    unfoldable pub from_answer : IndexChunk → File → Outcome StoreError Chunk × W → Written W
    from_answer c f (ok ch, w) = from_data c (data_of compress decompress ch).0 f w
    from_answer c f (err e, w) = (err (store_failed e), f, w)
    from_answer c f (panic, w) = (panic, f, w)
    from_answer c f (out_of_fuel, w) = (out_of_fuel, f, w)

    -- The target is also the file of the self seed, which gives no sections of zeroes.
    unfoldable pub from_self_seed :
        IndexChunk → Outcome ⊥ (Option SeedSegment) → File → ℕ → W → Written W
    from_self_seed c (ok none) f block w = from_answer c f (s.get_chunk c.id w)
    from_self_seed c (ok (some (file_segment file cs reflink))) f block w =
        if overlaps cs c
        then of_segment (overlapping f cs reflink c.start c.size block) w
        else of_segment (write_file_segment clone_range (some f) cs reflink f c.start c.size block)
            w
    from_self_seed c (ok (some (null_section from to reflink))) f block w = (panic, f, w)
    from_self_seed c (err e) f block w = elim e [ ]
    from_self_seed c panic f block w = (panic, f, w)
    from_self_seed c out_of_fuel f block w = (out_of_fuel, f, w)

    -- Data that is there already is left in place.
    unfoldable pub write_chunk : IndexChunk → SelfSeed → File → ℕ → Bool → W → Written W
    write_chunk c ss f block is_blank w =
        let write : Written W = from_self_seed c (get_chunk c.id ss) f block w in
        if is_blank then write else elim (read_at f c.size c.start) [
          | none ↦ (err target_too_short, f, w)
          | some b ↦ if id_equal (sum b) c.id then (ok tt, f, w) else write
        ]
