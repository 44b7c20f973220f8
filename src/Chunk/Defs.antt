-- ===== src/Chunk/Defs.antt =====
-- `Chunk` of chunk.go and `Converters` of coverter.go.
--
-- The digest, and the compression that compress.go takes from a zstd package, are not code of this
-- repository: they are the parameters `sum`, `compress` and `decompress`. The only converter there is
-- is the `Compressor`.
use desync.Common.{
  ℕ, List, [], ◌∷◌, length, replicate, Bool, true, false, ◌&&◌, not, ◌==◌, Option, some, none,
  and_then, if◌then◌else◌,
}
use desync.Common.Outcome.{Outcome, ok, err, ◌>>=◌}
use desync.Stream.Defs.{ChunkId}

-- The errors that a store or a chunk gives: those of errors.go, and all others by a number.
pub data StoreError : Type 0 where
  chunk_missing : ChunkId → StoreError
  chunk_invalid : ChunkId → ChunkId → StoreError
  no_data conversion_failed not_writable : StoreError
  other : ℕ → StoreError
  -- an error with a message of its own, which is of another type than the error inside
  wrapped : StoreError → StoreError

-- `==` on arrays of bytes.
unfoldable pub id_equal : ChunkId → ChunkId → Bool
id_equal [] [] = true
id_equal [] (b ∷ bs) = false
id_equal (a ∷ xs) [] = false
id_equal (a ∷ xs) (b ∷ bs) = let rest = id_equal xs bs in if a == b then rest else false

-- `ChunkID{}`
abbrev pub zero_id : ChunkId
zero_id = replicate 32 0

pub data Converter : Type 0 where
  compressor : Converter

pub record Chunk : Type 0 where
  -- plain data, if there is some
  pub plain : List ℕ
  -- storage format, if there is some
  pub stored : List ℕ
  pub converters : List Converter
  pub id : ChunkId
  pub id_calculated : Bool

-- `none` is an error of the conversion.
abbrev pub Convert : Type 0
Convert = List ℕ → Option (List ℕ)

converter_equal : Converter → Converter → Bool
converter_equal compressor compressor = true

unfoldable pub converters_equal : List Converter → List Converter → Bool
unfolding converter_equal
converters_equal [] [] = true
converters_equal [] (d ∷ ds) = false
converters_equal (c ∷ cs) [] = false
converters_equal (c ∷ cs) (d ∷ ds) = converter_equal c d && converters_equal cs ds

unfoldable pub has_compression : List Converter → Bool
has_compression [] = false
has_compression (compressor ∷ cs) = true

unfoldable pub new_chunk : List ℕ → Chunk
new_chunk b = record {
  plain = b;
  stored = [];
  converters = [];
  id = zero_id;
  id_calculated = false;
}

module _ (compress decompress : Convert) where
  unfoldable pub layer_to_storage : Converter → Convert
  layer_to_storage compressor b = compress b

  unfoldable pub layer_from_storage : Converter → Convert
  layer_from_storage compressor b = decompress b

  -- Every layer in the order of the list.
  unfoldable pub to_storage : List Converter → Convert
  to_storage [] b = some b
  to_storage (c ∷ cs) b = and_then (layer_to_storage c b) (to_storage cs)

  -- Every layer in the reverse order: those behind the first are undone before it.
  unfoldable pub from_storage : List Converter → Convert
  from_storage [] b = some b
  from_storage (c ∷ cs) b = and_then (from_storage cs b) (layer_from_storage c)

  -- What comes back from a conversion is kept in the chunk, also nothing on an error.
  keep_plain : Chunk → Option (List ℕ) → Outcome StoreError (List ℕ) × Chunk
  keep_plain c (some b) = (ok b, record c { plain = b })
  keep_plain c none = (err conversion_failed, record c { plain = [] })

  -- The plain data, converted from the storage format where the chunk has no other.
  unfoldable pub data_of : Chunk → Outcome StoreError (List ℕ) × Chunk
  unfolding keep_plain
  data_of c =
      if not (length c.plain == 0)
      then (ok c.plain, c)
      else if not (length c.stored == 0)
      then keep_plain c (from_storage c.converters c.stored)
      else (err no_data, c)

  converted : Option (List ℕ) → Outcome StoreError (List ℕ)
  converted (some b) = ok b
  converted none = err conversion_failed

  -- The storage format for `modifiers`.
  unfoldable pub storage_of : List Converter → Chunk → Outcome StoreError (List ℕ) × Chunk
  unfolding converted
  storage_of modifiers c =
      if not (length c.stored == 0) && converters_equal modifiers c.converters
      then (ok c.stored, c)
      else (do b ← (data_of c).0; converted (to_storage modifiers b), (data_of c).1)

  module _ (sum : List ℕ → ChunkId) where
    id_from : Outcome StoreError (List ℕ) × Chunk → ChunkId × Chunk
    id_from (ok b, c) = (sum b, record c { id = sum b; id_calculated = true })
    id_from (_, c) = (zero_id, c)

    -- The id, which is calculated once.
    unfoldable pub id_of : Chunk → ChunkId × Chunk
    unfolding id_from
    id_of c = if c.id_calculated then (c.id, c) else id_from (data_of c)

    -- Accepts the chunk if its id is the expected one.
    verified : ChunkId → ChunkId × Chunk → Outcome StoreError Chunk
    verified id (s, c) = if not (id_equal s id) then err (chunk_invalid id s) else ok c

    unfoldable pub new_chunk_with_id : ChunkId → List ℕ → Bool → Outcome StoreError Chunk
    unfolding verified
    new_chunk_with_id id b skip_verify =
        let c = record (new_chunk b) { id = id } in
        if skip_verify then ok (record c { id_calculated = true }) else verified id (id_of c)

    unfoldable pub new_chunk_from_storage :
        ChunkId → List ℕ → List Converter → Bool → Outcome StoreError Chunk
    unfolding verified
    new_chunk_from_storage id b modifiers skip_verify =
        let c : Chunk = record {
          plain = [];
          stored = b;
          converters = modifiers;
          id = id;
          id_calculated = false;
        } in
        if skip_verify then ok (record c { id_calculated = true }) else verified id (id_of c)

-- A chunk of zero bytes, of the largest size that the index allows.
pub record NullChunk : Type 0 where
  pub content : List ℕ
  pub id : ChunkId

unfoldable pub new_null_chunk : (List ℕ → ChunkId) → ℕ → NullChunk
new_null_chunk sum size = record { content = replicate size 0; id = sum (replicate size 0) }
