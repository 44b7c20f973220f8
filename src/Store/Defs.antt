-- ===== src/Store/Defs.antt =====
-- The interfaces of store.go.
--
-- A store is its operations over the state `W` of all stores and of what lies behind them. A
-- method that is given a store by another runs on that state, so what one call changes the next
-- call sees. A chunk that comes with an error is not modelled: no caller looks at it.
use desync.Common.{Bool, true, false, Option, none, some}
use desync.Common.Outcome.{Outcome}
use desync.Chunk.Defs.{Chunk, StoreError, chunk_missing, chunk_invalid, wrapped}
use desync.Stream.Defs.{ChunkId}

abbrev pub Effect : Type 0 → Type 0 → Type 0
Effect W A = W → Outcome StoreError A × W

pub record Store (W : Type 0) : Type 0 where
  pub get_chunk : ChunkId → Effect W Chunk
  pub has_chunk : ChunkId → Effect W Bool
  pub close : Effect W (Unit {0})

pub record WriteStore (W : Type 0) : Type 0 where
  pub store : Store W
  pub open store use *
  pub store_chunk : Chunk → Effect W (Unit {0})

-- The test `err.(ChunkMissing)` of the error's own type.
unfoldable pub is_chunk_missing : StoreError → Bool
is_chunk_missing (chunk_missing id) = true
is_chunk_missing _ = false

-- `errors.As(err, &chunkInvalidErr)`, which looks into wrapped errors: the id of the chunk.
unfoldable pub as_chunk_invalid : StoreError → Option ChunkId
as_chunk_invalid (chunk_invalid id s) = some id
as_chunk_invalid (wrapped e) = as_chunk_invalid e
as_chunk_invalid _ = none
