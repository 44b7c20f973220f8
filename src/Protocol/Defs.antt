-- ===== src/Protocol/Defs.antt =====
-- `Protocol` of protocol.go.
--
-- The two directions of the connection are the bytes still to be read and the bytes written. A write
-- does not fail. `Initialize` sends and receives at the same time; the two do not meet.
use desync.Common.{
  ℕ, ◌+◌, ◌-◌, List, [], ◌∷◌, ◌++◌, length, take, drop, ltb, ◌==◌, not, Bool, true, if◌then◌else◌,
}
use desync.Common.Outcome.{Outcome, ok, err, panic, out_of_fuel, ◌>>=◌}
use desync.Chunk.Defs.{
  Chunk, Convert, StoreError, Converter, compressor, chunk_missing, new_chunk_from_storage,
}
use desync.Format.Constants
use desync.Stream.Defs.{Error, ChunkId, le_bytes, le_uint, read_n, read_uint64, write_uint64}

pub record Protocol : Type 0 where
  pub r : List ℕ
  pub w : List ℕ
  pub initialized : Bool

pub record Message : Type 0 where
  pub type : ℕ
  pub body : List ℕ

pub data ProtocolError : Type 0 where
  reading : Error → ProtocolError
  message_too_short hello_length not_initialized chunk_too_small : ProtocolError
  hello_expected unexpected_type : ℕ → ProtocolError
  refused : StoreError → ProtocolError

unfoldable pub new_protocol : List ℕ → List ℕ → Protocol
new_protocol r w = record { r = r; w = w; initialized = Bool.false }

unfoldable pub from_stream : {A : Type 0} → Outcome Error A → Outcome ProtocolError A
from_stream (ok a) = ok a
from_stream (err e) = err (reading e)
from_stream panic = panic
from_stream out_of_fuel = out_of_fuel

-- The length counts itself and the type, and is wrapped where it is written.
unfoldable pub write_message : Message → List ℕ
write_message m = write_uint64 ((16 + length m.body) ∷ m.type ∷ []) ++ m.body

-- What is behind the length.
unfoldable pub message_of : List ℕ → Message
message_of b = record { type = le_uint (take 8 b); body = drop 8 b }

unfoldable pub read_message : List ℕ → Outcome ProtocolError (Message × List ℕ)
unfolding from_stream
read_message s = do
  (len, s') ← from_stream (read_uint64 s)
  if ltb len 16
      then err message_too_short
      else do (b, s'') ← from_stream (read_n (len - 8) s'); ok (message_of b, s'')

-- What an operation returns, with the protocol behind it.
abbrev pub Exchange : Type 0 → Type 0
Exchange A = Outcome ProtocolError A × Protocol

unfoldable pub send : Message → Protocol → Protocol
send m p = record p { w = p.w ++ write_message m }

-- A message that only an initialized session sends.
unfoldable pub send_in_session : Message → Protocol → Exchange (Unit {0})
send_in_session m p = if p.initialized then (ok tt, send m p) else (err not_initialized, p)

-- The next message, taken off the stream.
unfoldable pub receive : Protocol → Exchange Message
receive p = elim (read_message p.r) [
  | ok (m, r) ↦ (ok m, record p { r = r })
  | err e ↦ (err e, p)
  | panic ↦ (panic, p)
  | out_of_fuel ↦ (out_of_fuel, p)
]

unfoldable pub hello : ℕ → Message
hello flags = record { type = Constants.ca_protocol_hello; body = le_bytes 8 flags }

unfoldable pub flags_of : Message → Outcome ProtocolError ℕ
flags_of m =
    if not (m.type == Constants.ca_protocol_hello)
    then err (hello_expected m.type)
    else if not (length m.body == 8)
    then err hello_length
    else ok (le_uint m.body)

unfoldable pub recv_hello : Protocol → Exchange ℕ
recv_hello p = let (m, p') = receive p in (m >>= flags_of, p')

unfoldable pub initialized_if : Exchange ℕ → Exchange ℕ
initialized_if (ok flags, p) = (ok flags, record p { initialized = true })
initialized_if (r, p) = (r, p)

unfoldable pub initialize : ℕ → Protocol → Exchange ℕ
initialize flags p = initialized_if (recv_hello (send (hello flags) p))

-- Flags, a chunk id and data.
unfoldable pub chunk_body : ChunkId → ℕ → List ℕ → List ℕ
chunk_body id flags b = le_bytes 8 flags ++ (id ++ b)

unfoldable pub send_protocol_request : ChunkId → ℕ → Protocol → Exchange (Unit {0})
send_protocol_request id flags =
    send_in_session (record { type = Constants.ca_protocol_request; body = chunk_body id flags [] })

unfoldable pub send_protocol_chunk : ChunkId → ℕ → List ℕ → Protocol → Exchange (Unit {0})
send_protocol_chunk id flags b =
    send_in_session (record { type = Constants.ca_protocol_chunk; body = chunk_body id flags b })

unfoldable pub send_missing : ChunkId → Protocol → Exchange (Unit {0})
send_missing id = send_in_session (record { type = Constants.ca_protocol_missing; body = id })

unfoldable pub send_goodbye : Protocol → Exchange (Unit {0})
send_goodbye = send_in_session (record { type = Constants.ca_protocol_goodbye; body = [] })

abbrev pub compressed : List Converter
compressed = compressor ∷ []

module _ (compress decompress : Convert) (sum : List ℕ → ChunkId) where
  checked : Outcome StoreError Chunk → Outcome ProtocolError Chunk
  checked (ok c) = ok c
  checked (err e) = err (refused e)
  checked panic = panic
  checked out_of_fuel = out_of_fuel

  -- The reply to a request for `id`.
  unfoldable pub chunk_of_reply : ChunkId → Message → Outcome ProtocolError Chunk
  unfolding checked
  chunk_of_reply id m =
      if m.type == Constants.ca_protocol_missing
      then err (refused (chunk_missing id))
      else if m.type == Constants.ca_protocol_chunk
      then (if ltb (length m.body) 40
          then err chunk_too_small
          else checked (
              new_chunk_from_storage compress decompress sum id (drop 40 m.body) compressed
                Bool.false))
      else err (unexpected_type m.type)

  -- A request that was not sent is not waited for.
  unfoldable pub request_chunk : ChunkId → Protocol → Exchange Chunk
  request_chunk id p =
      if p.initialized
      then (let (sent, p1) =
            send_protocol_request id Constants.ca_protocol_request_high_priority p in
          let (m, p2) = receive p1 in (sent >>= λ u. m >>= chunk_of_reply id, p2))
      else (err not_initialized, p)
