-- ===== src/Protocol/Server.antt =====
-- `ProtocolServer` of protocolserver.go, whose context is never cancelled.
use desync.Common.{ℕ, zero, suc, List, length, take, drop, ltb, ◌==◌, if◌then◌else◌, bit_and}
use desync.Common.Outcome.{Outcome, ok, err, panic, out_of_fuel}
use desync.Chunk.Defs.{Chunk, Convert, StoreError, storage_of, id_of}
use desync.Format.Constants
use desync.Protocol.Defs.{
  Protocol, ProtocolError, Message, receive, initialize, send_missing, send_protocol_chunk,
  compressed,
}
use desync.Store.Defs.{Store, is_chunk_missing}
use desync.Stream.Defs.{Error, ChunkId, chunk_id_from_slice}

pub data ServeError : Type 0 where
  handshake_failed message_failed sending_failed : ProtocolError → ServeError
  no_chunks_requested unexpected_command : ℕ → ServeError
  request_too_small aborted : ServeError
  bad_id : Error → ServeError
  store_failed storage_failed : StoreError → ServeError

-- What one round of the loop comes to: the next round, or a return.
pub data Round (W : Type 0) : Type 0 where
  more : Protocol → W → Round W
  done : Outcome ServeError (Unit {0}) → Protocol → W → Round W

-- What `Serve` returns, with the protocol and the state of the store.
abbrev pub Served : Type 0 → Type 0
Served W = Outcome ServeError (Unit {0}) × Protocol × W

module _ {W : Type 0} where
  -- Behind a message that was sent, or was not.
  unfoldable pub after_send :
      Round W
      → (ProtocolError → Round W)
      → Outcome ProtocolError (Unit {0})
      → Protocol
      → W
      → Round W
  after_send sent failed (ok u) p w = sent
  after_send sent failed (err e) p w = failed e
  after_send sent failed panic p w = done panic p w
  after_send sent failed out_of_fuel p w = done out_of_fuel p w

  -- An error of the store. Behind a chunk reported as missing the error that is wrapped and returned
  -- is the nil of `SendMissing`.
  unfoldable pub refuse : ChunkId → StoreError → Protocol → W → Round W
  unfolding after_send
  refuse id e p w =
      if is_chunk_missing e
      then (let (sent, p') = send_missing id p in
          after_send (done (ok tt) p' w) (λ x. done (err (sending_failed x)) p' w) sent p' w)
      else done (err (store_failed e)) p w

  module _ (compress decompress : Convert) (sum : List ℕ → ChunkId) (s : Store W) where
    unfoldable pub reply : Chunk → Protocol → W → Round W
    unfolding after_send
    reply c p w =
        let (o, c') = storage_of compress decompress compressed c in
        elim o [
          | ok b ↦
              let (sent, p') =
                send_protocol_chunk (id_of compress decompress sum c').0
                  Constants.ca_protocol_chunk_compressed b p in
              after_send (more p' w) (λ x. done (err (sending_failed x)) p' w) sent p' w
          | err e ↦ done (err (storage_failed e)) p w
          | panic ↦ done panic p w
          | out_of_fuel ↦ done out_of_fuel p w
        ]

    unfoldable pub serve_chunk : ChunkId → Protocol → W → Round W
    serve_chunk id p w =
        let (o, w') = s.get_chunk id w in
        elim o [
          | ok c ↦ reply c p w'
          | err e ↦ refuse id e p w'
          | panic ↦ done panic p w'
          | out_of_fuel ↦ done out_of_fuel p w'
        ]

    unfoldable pub serve_request : List ℕ → Protocol → W → Round W
    serve_request body p w =
        if ltb (length body) 40
        then done (err request_too_small) p w
        else elim (chunk_id_from_slice (take 32 (drop 8 body))) [
          | ok id ↦ serve_chunk id p w
          | err e ↦ done (err (bad_id e)) p w
          | panic ↦ done panic p w
          | out_of_fuel ↦ done out_of_fuel p w
        ]

    unfoldable pub serve_message : Message → Protocol → W → Round W
    serve_message m p w =
        if m.type == Constants.ca_protocol_request
        then serve_request m.body p w
        else if m.type == Constants.ca_protocol_abort
        then done (err aborted) p w
        else if m.type == Constants.ca_protocol_goodbye
        then done (ok tt) p w
        else done (err (unexpected_command m.type)) p w

    unfoldable pub serve_round : Protocol → W → Round W
    serve_round p w =
        let (m, p') = receive p in
        elim m [
          | ok m ↦ serve_message m p' w
          | err e ↦ done (err (message_failed e)) p' w
          | panic ↦ done panic p' w
          | out_of_fuel ↦ done out_of_fuel p' w
        ]

    unfoldable pub serve_rounds : ℕ → Protocol → W → Served W
    serve_rounds zero p w = (out_of_fuel, p, w)
    serve_rounds (suc fuel) p w = elim (serve_round p w) [
      | more p' w' ↦ serve_rounds fuel p' w'
      | done o p' w' ↦ (o, p', w')
    ]

    -- A round takes at least 16 bytes off the stream, so that there are fewer than bytes.
    unfoldable pub serve : Protocol → W → Served W
    serve p w =
        let (flags, p') = initialize Constants.ca_protocol_readable_store p in
        elim flags [
          | ok flags ↦
              if bit_and flags Constants.ca_protocol_pull_chunks == 0
              then (err (no_chunks_requested flags), p', w)
              else serve_rounds (suc (length p'.r)) p' w
          | err e ↦ (err (handshake_failed e), p', w)
          | panic ↦ (panic, p', w)
          | out_of_fuel ↦ (out_of_fuel, p', w)
        ]
