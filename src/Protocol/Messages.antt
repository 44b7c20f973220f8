-- ===== src/Protocol/Messages.antt =====
-- About `WriteMessage` followed by `ReadMessage`, and the messages of protocol.go.
use desync.Common.{
  ℕ, ◌+◌, ◌-◌, ◌≤◌, ◌≡◌, refl, ap, ◌∙◌, List, ◌++◌, length, append_assoc, length-append,
  take-length_append, drop-length_append, arith, ltb, false, true,
}
use desync.Common.Outcome.{ok}
use desync.Protocol.Defs.{
  Protocol, Message, message_of, read_message, write_message, from_stream, send, receive,
  recv_hello, hello, flags_of, initialize, initialized_if,
}
use desync.Stream.Defs.{IsU64, max_alloc, le_bytes, write_uint64}
use desync.Stream.RoundTrip.{length-le_bytes, le_uint-le_bytes, read_n-append, read_uint64-le_bytes}

-- The type fits 64 bits and the message fits a buffer.
abbrev pub IsMessage : Message → Type 0
IsMessage m = IsU64 m.type × (8 + length m.body ≤ max_alloc)

message_of-append :
    (type : ℕ) (b : List ℕ)
    → IsU64 type
    → message_of (le_bytes 8 type ++ b) ≡ record { type = type; body = b }
unfolding message_of
message_of-append type b h = ground (
  arith,
  length-le_bytes 8 type,
  le_uint-le_bytes type h,
  take-length_append (le_bytes 8 type) b,
  drop-length_append (le_bytes 8 type) b,
)

-- A message as its length and the bytes that the length counts.
framed :
    (m : Message) (rest : List ℕ)
    → write_message m ++ rest
      ≡ le_bytes 8 (16 + length m.body) ++ ((le_bytes 8 m.type ++ m.body) ++ rest)
unfolding write_message write_uint64
framed m rest = simp append_assoc

-- A message whose type has 64 bits and whose body fits a buffer is read back from what
-- `WriteMessage` writes, and the bytes behind it are left.
read_message-write_message :
    (m : Message) (rest : List ℕ)
    → IsMessage m
    → read_message (write_message m ++ rest) ≡ ok (m, rest)
unfolding read_message from_stream
read_message-write_message m rest (ht, hb) =
    let b = le_bytes 8 m.type ++ m.body in
    let size : length b ≡ 8 + length m.body =
      length-append (le_bytes 8 m.type) m.body
      ∙ ap (λ n. n + length m.body) (length-le_bytes 8 m.type) in
    let rest_size : 16 + length m.body - 8 ≡ length b = omega (arith, size) in
    let long : ltb (16 + length m.body) 16 ≡ false = ground arith in
    let body = read_n-append b rest (omega (arith, size)) in
    rw
      (
        framed m rest,
        read_message,
        read_uint64-le_bytes (16 + length m.body) (b ++ rest) (omega arith),
        from_stream,
        long,
        rest_size,
        body,
        message_of-append m.type m.body ht,
      )
      refl

pub receive-write_message :
    (m : Message) (p : Protocol) (rest : List ℕ)
    → IsMessage m
    → p.r ≡ write_message m ++ rest
    → receive p ≡ (ok m, record p { r = rest })
unfolding receive
receive-write_message m p rest h at = rw (receive, at, read_message-write_message m rest h) refl

flags_of-hello : (flags : ℕ) → IsU64 flags → flags_of (hello flags) ≡ ok flags
unfolding flags_of hello
flags_of-hello flags h = ground (arith, length-le_bytes 8 flags, le_uint-le_bytes flags h)

hello-IsMessage : (flags : ℕ) → IsMessage (hello flags)
unfolding hello
hello-IsMessage flags = (omega arith, omega (arith, length-le_bytes 8 flags))

-- If the other side has sent its hello with `theirs`, the handshake sends a hello, returns those
-- flags, and the session is initialized.
pub initialize-hello :
    (ours theirs : ℕ) (p : Protocol) (rest : List ℕ)
    → IsU64 theirs
    → p.r ≡ write_message (hello theirs) ++ rest
    → initialize ours p
      ≡ (ok theirs, record { r = rest; w = p.w ++ write_message (hello ours); initialized = true })
unfolding initialize recv_hello send initialized_if
initialize-hello ours theirs p rest h at =
    rw
      (
        initialize,
        recv_hello,
        receive-write_message (hello theirs) (send (hello ours) p) rest (hello-IsMessage theirs) at,
        flags_of-hello theirs h,
      )
      refl
