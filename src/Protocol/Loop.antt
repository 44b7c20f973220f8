-- ===== src/Protocol/Loop.antt =====
-- About the loop of `Serve` of protocolserver.go.
use desync.Common.{
  ℕ, zero, suc, ◌-◌, ◌<◌, ◌≡◌, ◌≢◌, refl, List, length, take, drop, length-drop, arith,
}
use desync.Common.Outcome.{Outcome, ok, err, panic, out_of_fuel}
use desync.Chunk.Defs.{Chunk, Convert, StoreError, storage_of, data_of}
use desync.Format.Constants
use desync.Protocol.Defs.{
  Protocol, Message, compressed, ProtocolError, receive, read_message, from_stream, send_in_session,
  send, send_missing, send_protocol_chunk, initialize, initialized_if, recv_hello, flags_of,
}
use desync.Protocol.Server.{
  Round, more, done, refuse, reply, after_send, serve_chunk, serve_request, serve_message,
  serve_round, serve_rounds, serve,
}
use desync.Store.Defs.{Store}
use desync.Stream.Defs.{ChunkId, le_uint, read_n, read_full, read_uint64, chunk_id_from_slice}

-- What a message takes off the stream.
read_message-shorter :
    (s : List ℕ) (m : Message) (rest : List ℕ)
    → read_message s ≡ ok (m, rest)
    → length rest < length s
unfolding read_message from_stream read_uint64 read_n read_full
read_message-shorter s m rest h =
    ground (arith, length-drop 8 s, length-drop (le_uint (take 8 s) - 8) (drop 8 s))

read_message-fuel : (s : List ℕ) → read_message s ≢ out_of_fuel
unfolding read_message from_stream read_uint64 read_n read_full
read_message-fuel s h = ground arith

initialize-fuel : (flags : ℕ) (p : Protocol) → (initialize flags p).0 ≢ out_of_fuel
unfolding initialize recv_hello initialized_if send receive flags_of
initialize-fuel flags p h = ground (arith, read_message-fuel p.r)

storage_of-fuel :
    (compress decompress : Convert) (c : Chunk)
    → (storage_of compress decompress compressed c).0 ≢ out_of_fuel
unfolding storage_of data_of
storage_of-fuel compress decompress c h = ground arith

module _ {W : Type 0} (compress decompress : Convert) (sum : List ℕ → ChunkId) (s : Store W) where
  -- A round that leads to another one has taken bytes off the stream.
  send_in_session-r : (m : Message) (p : Protocol) → (send_in_session m p).1.r ≡ p.r
  unfolding send_in_session send
  send_in_session-r m p = ground arith

  reply-r :
      (c : Chunk) (p p' : Protocol) (w w' : W)
      → reply compress decompress sum s c p w ≡ more p' w'
      → p'.r ≡ p.r
  unfolding reply send_protocol_chunk send_in_session send after_send
  reply-r c p p' w w' h = ground arith

  refuse-stops :
      (id : ChunkId) (e : StoreError) (p p' : Protocol) (w w' : W) → refuse id e p w ≢ more p' w'
  unfolding refuse send_missing send_in_session send after_send
  refuse-stops id e p p' w w' h = ground arith

  serve_chunk-r :
      (id : ChunkId) (p p' : Protocol) (w w' : W)
      → serve_chunk compress decompress sum s id p w ≡ more p' w'
      → p'.r ≡ p.r
  unfolding serve_chunk
  serve_chunk-r id p p' w w' h = grind (arith, reply-r, refuse-stops)

  serve_request-r :
      (body : List ℕ) (p p' : Protocol) (w w' : W)
      → serve_request compress decompress sum s body p w ≡ more p' w'
      → p'.r ≡ p.r
  unfolding serve_request chunk_id_from_slice
  serve_request-r body p p' w w' h = ground (arith, serve_chunk-r (take 32 (drop 8 body)) p p' w w')

  serve_message-r :
      (m : Message) (p p' : Protocol) (w w' : W)
      → serve_message compress decompress sum s m p w ≡ more p' w'
      → p'.r ≡ p.r
  unfolding serve_message
  serve_message-r m p p' w w' h = ground (arith, serve_request-r m.body p p' w w')

  serve_read-r :
      (p p' : Protocol) (w w' : W) (o : Outcome ProtocolError (Message × List ℕ))
      → read_message p.r ≡ o
      → serve_round compress decompress sum s p w ≡ more p' w'
      → length p'.r < length p.r
  unfolding serve_round receive
  serve_read-r p p' w w' (ok (m, rest)) e h =
      ground (
        arith,
        serve_message-r m (record p { r = rest }) p' w w',
        read_message-shorter p.r m rest e,
      )
  serve_read-r p p' w w' (err x) e h = ground arith
  serve_read-r p p' w w' panic e h = ground arith
  serve_read-r p p' w w' out_of_fuel e h = ground arith

  -- No round gives the mark of a loop that was cut off.
  reply-fuel :
      (c : Chunk) (p p' : Protocol) (w w' : W)
      → reply compress decompress sum s c p w ≢ done out_of_fuel p' w'
  unfolding reply send_protocol_chunk send_in_session after_send
  reply-fuel c p p' w w' h = ground (arith, storage_of-fuel compress decompress c)

  refuse-fuel :
      (id : ChunkId) (e : StoreError) (p p' : Protocol) (w w' : W)
      → refuse id e p w ≢ done out_of_fuel p' w'
  unfolding refuse send_missing send_in_session after_send
  refuse-fuel id e p p' w w' h = ground arith

  module _ (fine : (id : ChunkId) (v : W) → (s.get_chunk id v).0 ≢ out_of_fuel) where
    serve_chunk-fuel :
        (id : ChunkId) (p p' : Protocol) (w w' : W)
        → serve_chunk compress decompress sum s id p w ≢ done out_of_fuel p' w'
    unfolding serve_chunk
    serve_chunk-fuel id p p' w w' h = grind (arith, fine, reply-fuel, refuse-fuel)

    serve_message-fuel :
        (m : Message) (p p' : Protocol) (w w' : W)
        → serve_message compress decompress sum s m p w ≢ done out_of_fuel p' w'
    unfolding serve_message serve_request chunk_id_from_slice
    serve_message-fuel m p p' w w' h =
        ground (arith, serve_chunk-fuel (take 32 (drop 8 m.body)) p p' w w')

    serve_round-fuel :
        (p p' : Protocol) (w w' : W) (o : Outcome ProtocolError (Message × List ℕ))
        → read_message p.r ≡ o
        → serve_round compress decompress sum s p w ≢ done out_of_fuel p' w'
    unfolding serve_round receive
    serve_round-fuel p p' w w' (ok (m, rest)) e h =
        ground (arith, serve_message-fuel m (record p { r = rest }) p' w w')
    serve_round-fuel p p' w w' (err x) e h = ground arith
    serve_round-fuel p p' w w' panic e h = ground arith
    serve_round-fuel p p' w w' out_of_fuel e h = read_message-fuel p.r e

    after_round :
        (fuel : ℕ) (p : Protocol) (w : W) (r : Round W)
        → serve_round compress decompress sum s p w ≡ r
        → ((p' : Protocol) (w' : W)
            → length p'.r < length p.r
            → (serve_rounds compress decompress sum s fuel p' w').0 ≢ out_of_fuel)
        → (serve_rounds compress decompress sum s (suc fuel) p w).0 ≢ out_of_fuel
    unfolding serve_rounds
    after_round fuel p w (more p' w') e rest =
        rw (serve_rounds, e) (rest p' w' (serve_read-r p p' w w' _ refl e))
    after_round fuel p w (done o p' w') e rest =
        rw (serve_rounds, e) (λ h. serve_round-fuel p p' w w' _ refl (rw (← h) e))

    -- With more rounds than bytes the loop ends.
    serve_rounds-ends :
        (fuel : ℕ) (p : Protocol) (w : W)
        → length p.r < fuel
        → (serve_rounds compress decompress sum s fuel p w).0 ≢ out_of_fuel
    serve_rounds-ends zero p w h = elim h [ ]
    serve_rounds-ends (suc fuel) p w h =
        after_round fuel p w _ refl (λ p' w' shorter. serve_rounds-ends fuel p' w' (omega arith))

    -- If the store always answers, the server returns: as many rounds as there are bytes are
    -- enough.
    pub serve-ends : (p : Protocol) (w : W) → (serve compress decompress sum s p w).0 ≢ out_of_fuel
    unfolding serve
    serve-ends p w h =
        let q = (initialize Constants.ca_protocol_readable_store p).1 in
        ground (
          arith,
          initialize-fuel Constants.ca_protocol_readable_store p,
          serve_rounds-ends (suc (length q.r)) q w (omega arith),
        )
