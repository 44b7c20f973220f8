-- ===== src/Protocol/Session.antt =====
-- About a request of the client and the round of the server that answers it.
use desync.Common.{
  ℕ, ◌+◌, ◌≤◌, ◌≡◌, refl, sym, List, [], ◌∷◌, ◌++◌, length, append-nil, arith, ltb, true, false,
}
use desync.Common.Outcome.{Outcome, ok, err}
use desync.Chunk.Defs.{Chunk, Convert, chunk_missing, data_of, storage_of}
use desync.Chunk.Storage.{Inverts, IsChunkOf, id_of-storage_of, new_chunk_from_storage-storage_of}
use desync.Format.Constants
use desync.Protocol.Defs.{
  Protocol, Message, ProtocolError, refused, write_message, send, send_in_session, receive,
  chunk_body, send_protocol_request, compressed, read_message, from_stream, chunk_of_reply,
  request_chunk,
}
use desync.Protocol.Messages.{IsMessage, receive-write_message}
use desync.Protocol.Server.{more, done, serve_round}
use desync.Store.Defs.{Store}
use desync.Stream.Defs.{ChunkId, max_alloc, read_uint64, read_full}
use desync.Protocol.Rounds.{
  length-chunk_body, drop_40-chunk_body, request, chunk_message, missing_message, serve_round-chunk,
  serve_round-missing,
}

-- One side of a session, with the bytes that it can read.
abbrev pub in_session : List ℕ → Protocol
in_session r = record { r = r; w = []; initialized = true }

-- The client's request, the round of the server that reads it, and the client's reading of what that
-- round writes.
abbrev pub ask :
    {W : Type 0} (compress decompress : Convert) (sum : List ℕ → ChunkId) (s : Store W)
    → ChunkId
    → W
    → Outcome ProtocolError Chunk
ask compress decompress sum s id w =
    let sent : List ℕ = (request_chunk compress decompress sum id (in_session [])).1.w in
    elim (serve_round compress decompress sum s (in_session sent) w) [
      | more p w' ↦ (request_chunk compress decompress sum id (in_session p.w)).0
      | done o p w' ↦ (request_chunk compress decompress sum id (in_session p.w)).0
    ]

module _ (compress decompress : Convert) (sum : List ℕ → ChunkId) where
  -- What the client writes.
  request_chunk-sent :
      (id : ChunkId)
      → (request_chunk compress decompress sum id (in_session [])).1.w ≡ write_message (request id)
  unfolding request_chunk send_protocol_request send_in_session send receive read_message
      read_uint64 read_full from_stream
  request_chunk-sent id = refl

  -- The client on the reply to its request.
  request_chunk-reply :
      (id : ChunkId) (m : Message)
      → IsMessage m
      → (request_chunk compress decompress sum id (in_session (write_message m))).0
        ≡ chunk_of_reply compress decompress sum id m
  unfolding request_chunk send_protocol_request send_in_session send
  request_chunk-reply id m h =
      let got =
        receive-write_message m (send (request id) (in_session (write_message m))) [] h
          (sym (append-nil (write_message m))) in
      rw got refl

module _ {W : Type 0} (compress decompress : Convert) (sum : List ℕ → ChunkId) (s : Store W) where
  -- Decompression undoes compression; the id has 32 bytes and is the digest of some data; the
  -- store of the server gives a chunk with that data for it, of which the storage format, if it
  -- has one, is that of the data, and the id, if it is calculated, is the one asked for; and the
  -- format in which it is sent is not empty and fits a buffer. Then the request that the client
  -- writes, the round of the server that reads it and the reply give the client a chunk with that
  -- data.
  pub ask-chunk :
      (id : ChunkId) (ch : Chunk) (x y : ℕ) (d b : List ℕ) (w w' : W)
      → Inverts compress decompress
      → length id ≡ 32
      → id ≡ sum (x ∷ d)
      → s.get_chunk id w ≡ (ok ch, w')
      → IsChunkOf compress decompress id (x ∷ d) ch
      → (storage_of compress decompress compressed ch).0 ≡ ok (y ∷ b)
      → 49 + length b ≤ max_alloc
      → (c : Chunk) × (ask compress decompress sum s id w ≡ ok c)
        × ((data_of compress decompress c).0 ≡ ok (x ∷ d))
  unfolding chunk_of_reply
  ask-chunk id ch x y d b w w' inverts h e has given stored fits =
      let server : Protocol = in_session (write_message (request id)) in
      let here : server.r ≡ write_message (request id) ++ [] =
        sym (append-nil (write_message (request id))) in
      let round =
        serve_round-chunk compress decompress sum s id ch (y ∷ b) server [] w w' h refl here has
          stored in
      let named = id_of-storage_of compress decompress sum inverts compressed id x d ch given e in
      let size = length-chunk_body id Constants.ca_protocol_chunk_compressed (y ∷ b) h in
      let (c, built, same) =
        new_chunk_from_storage-storage_of compress decompress sum inverts compressed id x y d b ch
          given stored e in
      let long : ltb (length (chunk_body id Constants.ca_protocol_chunk_compressed (y ∷ b))) 40
          ≡ false =
        ground (arith, size) in
      (
        c,
        rw
            (
              ask,
              request_chunk-sent compress decompress sum id,
              round,
              named,
              request_chunk-reply compress decompress sum id (chunk_message id (y ∷ b))
                  (omega arith, omega (arith, size)),
              chunk_of_reply,
              long,
              drop_40-chunk_body id Constants.ca_protocol_chunk_compressed (y ∷ b) h,
              built,
            )
            refl,
        same,
      )

  -- A chunk that the store misses is missing for the client.
  pub ask-missing :
      (id j : ChunkId) (w w' : W)
      → length id ≡ 32
      → s.get_chunk id w ≡ (err (chunk_missing j), w')
      → ask compress decompress sum s id w ≡ err (refused (chunk_missing id))
  unfolding chunk_of_reply
  ask-missing id j w w' h has =
      let round =
        serve_round-missing compress decompress sum s id j (in_session (write_message (request id)))
          [] w w' h refl (sym (append-nil (write_message (request id)))) has in
      rw
        (
          ask,
          request_chunk-sent compress decompress sum id,
          round,
          request_chunk-reply compress decompress sum id (missing_message id)
              (omega arith, omega arith),
        )
        refl
