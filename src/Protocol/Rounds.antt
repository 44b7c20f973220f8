-- ===== src/Protocol/Rounds.antt =====
-- About one round of the server of protocolserver.go.
use desync.Common.{
  ℕ, ◌+◌, ◌≡◌, refl, ap, sym, ◌∙◌, List, [], ◌++◌, length, take, drop, append_assoc, length-append,
  take-length_append, drop-length_append, arith, ltb, true, false,
}
use desync.Common.Outcome.{ok, err}
use desync.Chunk.Defs.{Chunk, Convert, chunk_missing, storage_of, id_of}
use desync.Format.Constants
use desync.Protocol.Defs.{
  Protocol, Message, write_message, send, send_in_session, chunk_body, send_protocol_chunk,
  send_missing, compressed,
}
use desync.Protocol.Messages.{receive-write_message}
use desync.Protocol.Server.{
  more, done, refuse, reply, serve_chunk, serve_request, serve_message, serve_round,
}
use desync.Store.Defs.{Store, is_chunk_missing}
use desync.Stream.Defs.{ChunkId, chunk_id_from_slice, le_bytes}
use desync.Stream.RoundTrip.{length-le_bytes}

pub length-chunk_body :
    (id : ChunkId) (flags : ℕ) (b : List ℕ)
    → length id ≡ 32
    → length (chunk_body id flags b) ≡ 40 + length b
unfolding chunk_body
length-chunk_body id flags b h =
    omega (
      arith,
      length-append (le_bytes 8 flags) (id ++ b),
      length-append id b,
      length-le_bytes 8 flags,
    )

drop_8-chunk_body :
    (id : ChunkId) (flags : ℕ) (b : List ℕ) → drop 8 (chunk_body id flags b) ≡ id ++ b
unfolding chunk_body
drop_8-chunk_body id flags b =
    ap (λ n. drop n (le_bytes 8 flags ++ (id ++ b))) (sym (length-le_bytes 8 flags))
    ∙ drop-length_append (le_bytes 8 flags) (id ++ b)

pub drop_40-chunk_body :
    (id : ChunkId) (flags : ℕ) (b : List ℕ) → length id ≡ 32 → drop 40 (chunk_body id flags b) ≡ b
unfolding chunk_body
drop_40-chunk_body id flags b h =
    let front = le_bytes 8 flags ++ id in
    let size : length front ≡ 40 =
      omega (arith, length-append (le_bytes 8 flags) id, length-le_bytes 8 flags) in
    ap (drop 40) (sym (append_assoc (le_bytes 8 flags) id b))
    ∙ ap (λ n. drop n (front ++ b)) (sym size)
    ∙ drop-length_append front b

abbrev pub request : ChunkId → Message
request id = record {
  type = Constants.ca_protocol_request;
  body = chunk_body id Constants.ca_protocol_request_high_priority [];
}

abbrev pub chunk_message : ChunkId → List ℕ → Message
chunk_message id b = record {
  type = Constants.ca_protocol_chunk;
  body = chunk_body id Constants.ca_protocol_chunk_compressed b;
}

abbrev pub missing_message : ChunkId → Message
missing_message id = record { type = Constants.ca_protocol_missing; body = id }

module _ {W : Type 0} (compress decompress : Convert) (sum : List ℕ → ChunkId) (s : Store W) where
  -- The server on a request is at its store.
  serve_round-request :
      (id : ChunkId) (p : Protocol) (rest : List ℕ) (w : W)
      → length id ≡ 32
      → p.r ≡ write_message (request id) ++ rest
      → serve_round compress decompress sum s p w
        ≡ serve_chunk compress decompress sum s id (record p { r = rest }) w
  unfolding serve_round serve_message serve_request chunk_id_from_slice
  serve_round-request id p rest w h at =
      let size = length-chunk_body id Constants.ca_protocol_request_high_priority [] h in
      let whole : take 32 (id ++ []) ≡ id =
        ap (λ n. take n (id ++ [])) (sym h) ∙ take-length_append id [] in
      let got = receive-write_message (request id) p rest (omega arith, omega (arith, size)) at in
      let long : ltb (length (chunk_body id Constants.ca_protocol_request_high_priority [])) 40
          ≡ false =
        ground (arith, size) in
      rw
        (
          serve_round,
          got,
          got,
          serve_message,
          serve_request,
          long,
          drop_8-chunk_body id Constants.ca_protocol_request_high_priority [],
          whole,
          chunk_id_from_slice,
          h,
        )
        (rw got refl)

  -- A request for a chunk that the store has: the reply is sent, and the next round follows.
  pub serve_round-chunk :
      (id : ChunkId) (c : Chunk) (b : List ℕ) (p : Protocol) (rest : List ℕ) (w w' : W)
      → length id ≡ 32
      → p.initialized ≡ true
      → p.r ≡ write_message (request id) ++ rest
      → s.get_chunk id w ≡ (ok c, w')
      → (storage_of compress decompress compressed c).0 ≡ ok b
      → serve_round compress decompress sum s p w
        ≡ more
            (record p {
              r = rest;
              w =
                  p.w
                  ++ write_message (
                      chunk_message
                        (id_of compress decompress sum
                          (storage_of compress decompress compressed c).1).0
                        b);
            })
            w'
  unfolding serve_chunk reply send_protocol_chunk send_in_session send
  serve_round-chunk id c b p rest w w' h ini at has stored =
      rw
        (
          serve_round-request id p rest w h at,
          serve_chunk,
          has,
          reply,
          stored,
          send_protocol_chunk,
          send_in_session,
          ini,
        )
        (rw has refl)

  -- In a session, behind a request with an id of 32 bytes for a chunk of which the store says
  -- that it is missing, the round ends the server without an error: the client is told that the
  -- chunk is missing, and what lies behind the request stays unread.
  pub serve_round-missing :
      (id j : ChunkId) (p : Protocol) (rest : List ℕ) (w w' : W)
      → length id ≡ 32
      → p.initialized ≡ true
      → p.r ≡ write_message (request id) ++ rest
      → s.get_chunk id w ≡ (err (chunk_missing j), w')
      → serve_round compress decompress sum s p w
        ≡ done (ok tt) (record p { r = rest; w = p.w ++ write_message (missing_message id) }) w'
  unfolding serve_chunk refuse send_missing send_in_session send is_chunk_missing
  serve_round-missing id j p rest w w' h ini at has =
      rw
        (
          serve_round-request id p rest w h at,
          serve_chunk,
          has,
          has,
          refuse,
          send_missing,
          send_in_session,
          ini,
        )
        refl
