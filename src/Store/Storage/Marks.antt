-- ===== src/Store/Storage/Marks.antt =====
-- About the marks of `StoreChunk` of chunkstorage.go, and a second call.
use desync.Common.{List, [], ◌∷◌, ◌≡◌, refl, false, arith}
use desync.Common.Outcome.{ok, err}
use desync.Chunk.Defs.{Chunk, StoreError}
use desync.Chunk.Storage.{id_equal_refl}
use desync.Store.Defs.{WriteStore}
use desync.Store.Storage.{is_marked, unmark_processed, store_chunk}
use desync.Stream.Defs.{ChunkId}

is_marked-unmark_processed :
    (id : ChunkId) (l : List ChunkId) → is_marked id (unmark_processed id l) ≡ false
unfolding is_marked unmark_processed
is_marked-unmark_processed id [] = refl
is_marked-unmark_processed id (x ∷ l) = ground (arith, is_marked-unmark_processed id l)

module _ {W : Type 0} (named : Chunk → ChunkId) (ws : WriteStore W) where
  -- If a chunk is not marked, the store answers that it does not have it, and takes it, then the
  -- call stores and marks it; a second call, in any state `u` of the store, succeeds and neither
  -- asks nor changes the store.
  pub store_chunk-store_chunk :
      (c : Chunk) (marks : List ChunkId) (w v w' u : W)
      → is_marked (named c) marks ≡ false
      → ws.has_chunk (named c) w ≡ (ok false, v)
      → ws.store_chunk c v ≡ (ok tt, w')
      → (store_chunk named ws c marks w ≡ (ok tt, named c ∷ marks, w'))
        × (store_chunk named ws c (named c ∷ marks) u ≡ (ok tt, named c ∷ marks, u))
  unfolding store_chunk is_marked
  store_chunk-store_chunk c marks w v w' u fresh has stored =
      (ground arith, ground (arith, id_equal_refl (named c)))

  -- If the chunk is not marked and the store does not have it and refuses it, the error is
  -- returned and the chunk is not marked, so that a second call tries again.
  store_chunk_retries :
      (c : Chunk) (e : StoreError) (marks : List ChunkId) (w v w' : W)
      → is_marked (named c) marks ≡ false
      → ws.has_chunk (named c) w ≡ (ok false, v)
      → ws.store_chunk c v ≡ (err e, w')
      → ((store_chunk named ws c marks w).0 ≡ err e)
        × (is_marked (named c) (store_chunk named ws c marks w).1 ≡ false)
  unfolding store_chunk
  store_chunk_retries c e marks w v w' fresh has refused =
      (ground arith, ground (arith, is_marked-unmark_processed (named c) (named c ∷ marks)))

  -- If the chunk is not marked and the question whether the store has it fails, the error is
  -- returned, but the chunk stays marked: a second call reports success and does not store it.
  pub store_chunk_lost :
      (c : Chunk) (e : StoreError) (marks : List ChunkId) (w w' : W)
      → is_marked (named c) marks ≡ false
      → ws.has_chunk (named c) w ≡ (err e, w')
      → (store_chunk named ws c marks w ≡ (err e, named c ∷ marks, w'))
        × (store_chunk named ws c (named c ∷ marks) w' ≡ (ok tt, named c ∷ marks, w'))
  unfolding store_chunk is_marked
  store_chunk_lost c e marks w w' fresh failed =
      (ground arith, ground (arith, id_equal_refl (named c)))
