-- ===== src/Tests/Chunks.antt =====
-- Chunks with a stand-in for the compression, which puts a 1 in front of the data, and for the
-- digest.
use desync.Common.{
  ℕ, ◌%◌, ◌≡◌, refl, ◌⊎◌, List, [], ◌∷◌, length, replicate, none, some, true, false, arith,
}
use desync.Common.Outcome.{ok}
use desync.Chunk.Defs.{
  Chunk, Converter, compressor, Convert, new_chunk_from_storage, data_of, from_storage, zero_id,
  id_of, id_equal, layer_from_storage,
}
use desync.Chunk.Storage.{Inverts, new_chunk_from_storage_sound}
use desync.Stream.Defs.{ChunkId}

abbrev pub pack : Convert
pack b = some (1 ∷ b)

abbrev pub unpack : Convert
unpack [] = none
unpack (x ∷ b) = some b

pub pack-Inverts : Inverts pack unpack
pack-Inverts b [] h = cc
pack-Inverts b (x ∷ c) h = ground arith

abbrev pub sum_length : List ℕ → ChunkId
sum_length b = replicate 32 (length b % 256)

abbrev layers : List Converter
layers = compressor ∷ compressor ∷ []

abbrev received : Chunk
received = record {
  plain = 7 ∷ 8 ∷ [];
  stored = 1 ∷ 1 ∷ 7 ∷ 8 ∷ [];
  converters = layers;
  id = replicate 32 2;
  id_calculated = true;
}

received-ok :
    new_chunk_from_storage pack unpack sum_length (replicate 32 2) (1 ∷ 1 ∷ 7 ∷ 8 ∷ []) layers false
    ≡ ok received
unfolding new_chunk_from_storage id_of data_of from_storage layer_from_storage id_equal
received-ok = refl

new_chunk_from_storage_sound_example :
    ((x : List ℕ) × ((data_of pack unpack received).0 ≡ ok x) × (sum_length x ≡ replicate 32 2))
    ⊎ (replicate 32 2 ≡ zero_id)
new_chunk_from_storage_sound_example =
    new_chunk_from_storage_sound pack unpack sum_length (replicate 32 2) (1 ∷ 1 ∷ 7 ∷ 8 ∷ []) layers
      received received-ok
