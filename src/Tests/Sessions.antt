-- ===== src/Tests/Sessions.antt =====
-- Sessions with a store of one chunk, and with an empty one.
use desync.Common.{some, ◌≡◌, ◌≢◌, refl, [], ◌∷◌, ◌++◌, replicate, arith, true, false}
use desync.Common.Outcome.{ok, err, out_of_fuel}
use desync.Chunk.Defs.{
  Chunk, chunk_missing, data_of, storage_of, from_storage, layer_from_storage, id_of, id_equal,
  converters_equal, new_chunk_from_storage,
}
use desync.Chunk.Storage.{new_chunk_from_storage-IsChunkOf}
use desync.Protocol.Defs.{Protocol, compressed, write_message}
use desync.Protocol.Loop.{serve-ends}
use desync.Protocol.Server.{done, serve, serve_round}
use desync.Protocol.Rounds.{request, missing_message, serve_round-missing}
use desync.Protocol.Session.{in_session, ask, ask-chunk}
use desync.Store.Defs.{Store}
use desync.Stream.Defs.{ChunkId}
use desync.Tests.Chunks.{pack, unpack, pack-Inverts, sum_length}

abbrev two : ChunkId
two = replicate 32 2

-- A chunk as a store of compressed chunks gives it, verified.
abbrev given : Chunk
given = record {
  plain = 7 ∷ 8 ∷ [];
  stored = 1 ∷ 7 ∷ 8 ∷ [];
  converters = compressed;
  id = two;
  id_calculated = true;
}

given-built :
    new_chunk_from_storage pack unpack sum_length two (1 ∷ 7 ∷ 8 ∷ []) compressed false ≡ ok given
unfolding new_chunk_from_storage id_of data_of from_storage layer_from_storage id_equal
given-built = refl

given-back : from_storage pack unpack compressed (1 ∷ 7 ∷ 8 ∷ []) ≡ some (7 ∷ 8 ∷ [])
unfolding from_storage layer_from_storage
given-back = refl

-- A store with that chunk, under every id.
abbrev pair_store : Store (Unit {0})
pair_store = record {
  get_chunk = λ id w. (ok given, w);
  has_chunk = λ id w. (ok true, w);
  close = λ w. (ok tt, w);
}

abbrev no_chunks : Store (Unit {0})
no_chunks = record {
  get_chunk = λ id w. (err (chunk_missing id), w);
  has_chunk = λ id w. (ok false, w);
  close = λ w. (ok tt, w);
}

given-packed : (storage_of pack unpack compressed given).0 ≡ ok (1 ∷ 7 ∷ 8 ∷ [])
unfolding storage_of converters_equal
given-packed = refl

ask-chunk_example :
    (c : Chunk) × (ask pack unpack sum_length pair_store two tt ≡ ok c)
    × ((data_of pack unpack c).0 ≡ ok (7 ∷ 8 ∷ []))
ask-chunk_example =
    ask-chunk pack unpack sum_length pair_store two given 7 1 (8 ∷ []) (7 ∷ 8 ∷ []) tt tt
      pack-Inverts refl refl refl
      (new_chunk_from_storage-IsChunkOf pack unpack sum_length two 7 1 (8 ∷ []) (7 ∷ 8 ∷ [])
        compressed false given given-back refl given-built)
      given-packed (omega arith)

-- More bytes wait behind the request.
abbrev asked_for_two : Protocol
asked_for_two = in_session (write_message (request two) ++ (1 ∷ []))

serve_round-missing_example :
    serve_round pack unpack sum_length no_chunks asked_for_two tt
    ≡ done
        (ok tt)
        (record asked_for_two { r = 1 ∷ []; w = [] ++ write_message (missing_message two) })
        tt
serve_round-missing_example =
    serve_round-missing pack unpack sum_length no_chunks two two asked_for_two (1 ∷ []) tt tt refl
      refl refl refl

never_out_of_fuel : (id : ChunkId) (v : Unit {0}) → (pair_store.get_chunk id v).0 ≢ out_of_fuel
never_out_of_fuel id v h = cc

serve-ends_example : (serve pack unpack sum_length pair_store asked_for_two tt).0 ≢ out_of_fuel
serve-ends_example = serve-ends pack unpack sum_length pair_store never_out_of_fuel asked_for_two tt
