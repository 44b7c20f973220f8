-- ===== src/Copy.antt =====
-- `Copy` of copy.go, where the ids are worked on one after the other.
--
-- An error of a worker ends the copying; what other workers do until they see it is left out.
pub mod Present
use desync.Common.{ℕ, List, [], ◌∷◌, length, Bool, true, false, if◌then◌else◌}
use desync.Common.Outcome.{Outcome, ok, err, panic, out_of_fuel}
use desync.Chunk.Defs.{Chunk, StoreError}
use desync.Store.Defs.{Store, WriteStore}
use desync.Stream.Defs.{ChunkId}

module _ {W : Type 0} (src : Store W) (dst : WriteStore W) where
  -- A chunk that came, or did not.
  unfoldable pub store_copy : Outcome StoreError Chunk × W → Outcome StoreError (Unit {0}) × W
  store_copy (ok c, w) = dst.store_chunk c w
  store_copy (err e, w) = (err e, w)
  store_copy (panic, w) = (panic, w)
  store_copy (out_of_fuel, w) = (out_of_fuel, w)

  unfoldable pub after_has_chunk :
      ChunkId → Outcome StoreError Bool × W → Outcome StoreError (Unit {0}) × W
  after_has_chunk id (ok true, w) = (ok tt, w)
  after_has_chunk id (ok false, w) = store_copy (src.get_chunk id w)
  after_has_chunk id (err e, w) = (err e, w)
  after_has_chunk id (panic, w) = (panic, w)
  after_has_chunk id (out_of_fuel, w) = (out_of_fuel, w)

  unfoldable pub copy_chunk : ChunkId → W → Outcome StoreError (Unit {0}) × W
  copy_chunk id w = after_has_chunk id (dst.has_chunk id w)

  -- `cancelled` says before which ids, by the number of ids that are left behind, the context is seen
  -- to be cancelled: the copying ends there, without an error.
  unfoldable pub copy_chunks : (ℕ → Bool) → List ChunkId → W → Outcome StoreError (Unit {0}) × W
  copy_chunks cancelled [] w = (ok tt, w)
  copy_chunks cancelled (id ∷ ids) w =
      let (o, w') = copy_chunk id w in
      if cancelled (length ids) then (ok tt, w) else elim o [
        | ok u ↦ copy_chunks cancelled ids w'
        | err e ↦ (err e, w')
        | panic ↦ (panic, w')
        | out_of_fuel ↦ (out_of_fuel, w')
      ]
