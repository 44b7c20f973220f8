-- ===== src/Store/Storage.antt =====
-- `ChunkStorage` of chunkstorage.go, for one caller at a time.
pub mod Marks
use desync.Common.{List, [], ◌∷◌, Bool, true, false, not, if◌then◌else◌}
use desync.Common.Outcome.{Outcome, ok, err, panic, out_of_fuel}
use desync.Chunk.Defs.{Chunk, StoreError, id_equal}
use desync.Store.Defs.{WriteStore, Effect}
use desync.Stream.Defs.{ChunkId}

-- The set of the ids that are marked, as a list.
unfoldable pub is_marked : ChunkId → List ChunkId → Bool
is_marked id [] = false
is_marked id (x ∷ processed) =
    let rest = is_marked id processed in if id_equal x id then true else rest

-- `s.processed[id] = struct{}{}`, with whether the id was there before.
unfoldable pub mark_processed : ChunkId → List ChunkId → Bool × List ChunkId
mark_processed id processed =
    if is_marked id processed then (true, processed) else (false, id ∷ processed)

unfoldable pub unmark_processed : ChunkId → List ChunkId → List ChunkId
unmark_processed id [] = []
unmark_processed id (x ∷ processed) =
    let rest = unmark_processed id processed in if id_equal x id then rest else x ∷ rest

-- What comes back with the marks and the state of the stores.
abbrev pub Stored : Type 0 → Type 0
Stored W = Outcome StoreError (Unit {0}) × List ChunkId × W

module _ {W : Type 0} where
  -- The deferred function: an error of the store itself takes the mark away.
  unmark_on_error : ChunkId → List ChunkId → Outcome StoreError (Unit {0}) × W → Stored W
  unmark_on_error id processed (err e, w) = (err e, unmark_processed id processed, w)
  unmark_on_error id processed (r, w) = (r, processed, w)

  -- Behind `HasChunk` of the store, which may fail with no mark taken away.
  after_has : WriteStore W → ChunkId → Chunk → List ChunkId → Outcome StoreError Bool × W → Stored W
  unfolding unmark_on_error
  after_has ws id c processed (ok true, w) = (ok tt, processed, w)
  after_has ws id c processed (ok false, w) = unmark_on_error id processed (ws.store_chunk c w)
  after_has ws id c processed (err e, w) = (err e, processed, w)
  after_has ws id c processed (panic, w) = (panic, processed, w)
  after_has ws id c processed (out_of_fuel, w) = (out_of_fuel, processed, w)

  -- `named` gives the id of a chunk.
  unfoldable pub store_chunk :
      (Chunk → ChunkId) → WriteStore W → Chunk → List ChunkId → W → Stored W
  unfolding mark_processed after_has
  store_chunk named ws c processed w =
      let (marked, processed') = mark_processed (named c) processed in
      if marked
      then (ok tt, processed', w)
      else after_has ws (named c) c processed' (ws.has_chunk (named c) w)
