-- ===== src/Store/Cache/Hits.antt =====
-- About `GetChunk` of cache.go: when the remote store is asked.
use desync.Common.{◌≡◌, true, false, arith}
use desync.Common.Outcome.{ok, err}
use desync.Chunk.Defs.{Chunk, Convert, StoreError, chunk_invalid, data_of}
use desync.Store.Cache.{get_chunk, repairable_get_chunk, new_repairable_cache}
use desync.Store.Defs.{Store, WriteStore, is_chunk_missing, as_chunk_invalid}
use desync.Stream.Defs.{ChunkId}

-- What the cache relies on for a chunk and its id: once stored, it is found under the id, as a chunk
-- with the same data, which may be kept in another format; and finding it changes nothing.
pub record Remembers {W : Type 0} (compress decompress : Convert) (id : ChunkId) (c : Chunk)
    (l : WriteStore W) : Type 0 where
  pub found :
      (w w' : W)
      → l.store_chunk c w ≡ (ok tt, w')
      → (c' : Chunk) × (l.get_chunk id w' ≡ (ok c', w'))
        × ((data_of compress decompress c').0 ≡ (data_of compress decompress c).0)

module _ {W : Type 0} (compress decompress : Convert) (l : WriteStore W) where
  -- A first request that misses stores the chunk.
  stored_locally :
      (s : Store W) (id : ChunkId) (e : StoreError) (c : Chunk) (w v w' : W)
      → l.get_chunk id w ≡ (err e, v)
      → is_chunk_missing e ≡ true
      → (s.get_chunk id v).0 ≡ ok c
      → get_chunk (record { s = s; l = l }) id w ≡ (ok c, w')
      → (u : W) × (l.store_chunk c u ≡ (ok tt, w'))
  unfolding get_chunk
  stored_locally s id e c w v w' miss missing remote first = ((s.get_chunk id v).1, ground arith)

  -- Once the local store has stored the chunk, it finds under the id a chunk with the same data,
  -- in the same or another format, and finding it changes nothing. Then, where the local store
  -- missed a chunk and it came from the remote store, the next request gives a chunk with that
  -- data, whatever remote store there is by then, and changes nothing.
  pub get_chunk-get_chunk :
      (s s' : Store W) (id : ChunkId) (e : StoreError) (c : Chunk) (w v w' : W)
      → Remembers compress decompress id c l
      → l.get_chunk id w ≡ (err e, v)
      → is_chunk_missing e ≡ true
      → (s.get_chunk id v).0 ≡ ok c
      → get_chunk (record { s = s; l = l }) id w ≡ (ok c, w')
      → (c' : Chunk) × (get_chunk (record { s = s'; l = l }) id w' ≡ (ok c', w'))
        × ((data_of compress decompress c').0 ≡ (data_of compress decompress c).0)
  unfolding get_chunk
  get_chunk-get_chunk s s' id e c w v w' remembers miss missing remote first =
      let (u, stored) = stored_locally s id e c w v w' miss missing remote first in
      let (c', got, same) = remembers.found u w' stored in (c', ground arith, same)

module _ {W : Type 0} (s : Store W) (l : WriteStore W) where
  -- An error of the local store other than a missing chunk is returned, and the remote store is not
  -- asked.
  pub get_chunk_local_error :
      (s' : Store W) (id : ChunkId) (e : StoreError) (w w' : W)
      → l.get_chunk id w ≡ (err e, w')
      → is_chunk_missing e ≡ false
      → get_chunk (record { s = s'; l = l }) id w ≡ (err e, w')
  unfolding get_chunk
  get_chunk_local_error s' id e w w' h ne = ground arith

  -- If the local chunk is damaged, the remote store has it and the local one takes it, a cache
  -- with a repairable cache inside returns the chunk and has stored it.
  pub get_chunk_repaired :
      (id sum : ChunkId) (c : Chunk) (w v u w' : W)
      → l.get_chunk id w ≡ (err (chunk_invalid id sum), v)
      → s.get_chunk id v ≡ (ok c, u)
      → l.store_chunk c u ≡ (ok tt, w')
      → get_chunk (record { s = s; l = new_repairable_cache l }) id w ≡ (ok c, w')
  unfolding get_chunk new_repairable_cache repairable_get_chunk is_chunk_missing as_chunk_invalid
  get_chunk_repaired id sum c w v u w' h r k = ground arith
