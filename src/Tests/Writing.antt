-- ===== src/Tests/Writing.antt =====
-- A segment cloned into a target, with blocks of four bytes.
use desync.Common.{
  ℕ, ◌+◌, ◌≡◌, refl, [], ◌∷◌, replicate, ltb, true, some, none, if◌then◌else◌, arith,
}
use desync.Common.Outcome.{ok, err}
use desync.Files.{File, copy_range}
use desync.Index.Defs.{IndexChunk}
use desync.Seeds.Defs.{size_of_chunks, last_end_of}
use desync.Seeds.Writing.{CloneRange, clone, clone_failed, write_file_segment}
use desync.Seeds.Writing.Clone.{Clones, write_file_segment-copy_range, clone_within_block}

-- A system call that refuses what lies behind the end of the source.
abbrev cloning : CloneRange
cloning dst src i n j = if ltb src.size (i + n) then none else some (copy_range dst src i n j)

cloning-Clones : Clones cloning 4
cloning-Clones dst src i n j ne h = ground arith

abbrev old : File
old = record { size = 20; at = λ j. j }

abbrev target : File
target = record { size = 30; at = λ j. 0 }

abbrev piece : IndexChunk
piece = record { id = replicate 32 1; start = 2; size = 15 }

piece_size : size_of_chunks (piece ∷ []) ≡ 15
unfolding size_of_chunks last_end_of
piece_size = refl

write_file_segment-copy_range_example :
    (copied cloned : ℕ) × (copied + cloned ≡ 15)
    × (write_file_segment cloning (some old) (piece ∷ []) true target 6 15 4
        ≡ (ok (copied, cloned), copy_range target old 2 15 6))
write_file_segment-copy_range_example =
    write_file_segment-copy_range cloning target old piece [] true 15 6 4 cloning-Clones
      (omega arith) piece_size (λ h. omega arith) (omega arith) (omega arith)

clone_within_block_example : (clone cloning target old 4 3 8 4).0 ≡ err clone_failed
clone_within_block_example =
    clone_within_block cloning target old 4 3 8 4 (λ d s i k j h. ground arith) (omega arith) refl
      refl (omega arith) (omega arith) (omega arith)
