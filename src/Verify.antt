-- ===== src/Verify.antt =====
-- `VerifyIndex` of verifyindex.go.
--
-- The batches are validated one after the other; the workers only read, so that the order does not
-- matter. A file that can be opened is open. The size of a device is not compared.
pub mod Batches
use desync.Common.{
  ℕ, zero, suc, ◌+◌, ◌-◌, ◌*◌, ◌/◌, List, [], ◌∷◌, length, take, drop, ltb, leb, ◌==◌, not, Bool,
  if◌then◌else◌, ◌&&◌,
}
use desync.Common.Outcome.{Outcome, ok, err, panic, out_of_fuel, ◌>>=◌}
use desync.Files.{File}
use desync.Index.Defs.{IndexChunk, Index, index_length}
use desync.Seeds.Writing.{SegmentError, validate, wrong_size}
use desync.Stream.Defs.{ChunkId}

-- The slices that the workers are given, from one position to before another. The loop has no more
-- rounds than there are chunks. `cancelled` says at which positions the context is seen to be
-- cancelled: the feeding ends there, without an error.
unfoldable pub batches : (ℕ → Bool) → ℕ → ℕ → ℕ → ℕ → List (ℕ × ℕ)
batches cancelled zero batch num i = []
batches cancelled (suc fuel) batch num i =
    let rest = batches cancelled fuel batch num (i + batch + 1) in
    let last : ℕ = (if leb num (i + batch) then num - 1 else i + batch) in
    if ltb i num then if cancelled i then [] else (i, last + 1) ∷ rest else []

unfoldable pub validate_batches :
    (List ℕ → ChunkId) → File → List IndexChunk → List (ℕ × ℕ) → Outcome SegmentError (Unit {0})
validate_batches sum f chunks [] = ok tt
validate_batches sum f chunks ((i, e) ∷ bs) =
    validate sum f (take (e - i) (drop i chunks)) >>= (λ u. validate_batches sum f chunks bs)

-- With `n` workers: a division by zero without any.
unfoldable pub verify_index :
    (List ℕ → ChunkId) → (ℕ → Bool) → Bool → File → Index → ℕ → Outcome SegmentError (Unit {0})
verify_index sum cancelled is_device f idx n =
    if not is_device && not (f.size == index_length idx)
    then err wrong_size
    else if n == 0
    then panic
    else validate_batches sum f idx.chunks (
        batches cancelled (suc (length idx.chunks)) (length idx.chunks / (n * 10))
          (length idx.chunks) 0)
