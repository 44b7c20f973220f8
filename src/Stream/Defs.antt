-- ===== src/Stream/Defs.antt =====
-- `reader` and `writer` of reader.go and writer.go, over the bytes still to be read.
use desync.Common.{
  ℕ, zero, suc, ◌+◌, ◌*◌, ◌/◌, ◌%◌, ◌^◌, ◌<◌, List, [], ◌∷◌, ◌++◌, length, take, drop, leb, ltb,
  ◌==◌, if◌then◌else◌,
}
use desync.Common.Outcome.{Outcome, ok, err, panic, out_of_fuel}

pub data Error : Type 0 where
  eof : Error
  unexpected_eof : Error
  bad_id_size : Error
  -- `InvalidFormat`, with or without a message
  invalid_format : Error
  unsupported_header : ℕ → Error

-- An operation on a stream: what it returns and the bytes that it leaves.
abbrev pub Reader : Type 0 → Type 0
Reader A = List ℕ → Outcome Error (A × List ℕ)

infixl 5 ◌>>=◌ ◌>>◌
abbrev pub ◌>>=◌ : {A B : Type 0} → Reader A → (A → Reader B) → Reader B
◌>>=◌ m f s = elim (m s) [
  | ok (a, s') ↦ f a s'
  | err e ↦ err e
  | panic ↦ panic
  | out_of_fuel ↦ out_of_fuel
]

abbrev pub ◌>>◌ : {A B : Type 0} → Reader A → Reader B → Reader B
m >> k = m >>= λ _. k

abbrev pub pure : {A : Type 0} → A → Reader A
pure a s = ok (a, s)

abbrev pub fail : {A : Type 0} → Error → Reader A
fail e s = err e

abbrev pub crash : {A : Type 0} → Reader A
crash s = panic

abbrev pub exhausted : {A : Type 0} → Reader A
exhausted s = out_of_fuel

abbrev pub IsU64 : ℕ → Type 0
IsU64 v = v < 2 ^ 64

-- The type `ChunkID` of types.go: 32 bytes.
abbrev pub ChunkId : Type 0
ChunkId = List ℕ

-- The largest number of bytes that `make` can be asked for before it panics, on a 64-bit platform.
abbrev pub max_alloc : ℕ
max_alloc = 2 ^ 48

-- `binary.LittleEndian`: the `k` lowest bytes of a number, and the number that bytes stand for.
unfoldable pub le_bytes : ℕ → ℕ → List ℕ
le_bytes zero v = []
le_bytes (suc k) v = v % 256 ∷ le_bytes k (v / 256)

unfoldable pub le_uint : List ℕ → ℕ
le_uint [] = 0
le_uint (b ∷ bs) = b + 256 * le_uint bs

unfoldable pub eof_error : List ℕ → Error
eof_error [] = eof
eof_error (b ∷ bs) = unexpected_eof

-- `io.ReadFull` into a buffer of `n` bytes.
unfoldable pub read_full : ℕ → Reader (List ℕ)
unfolding eof_error
read_full n s = if leb n (length s) then ok (take n s, drop n s) else err (eof_error s)

-- `make([]byte, n)` followed by `io.ReadFull`.
unfoldable pub read_n : ℕ → Reader (List ℕ)
read_n n s = if ltb max_alloc n then panic else read_full n s

unfoldable pub read_uint64 : Reader ℕ
read_uint64 = do b ← read_full 8; pure (le_uint b)

unfoldable pub chunk_id_from_slice : List ℕ → Outcome Error ChunkId
chunk_id_from_slice b = if length b == 32 then ok b else err bad_id_size

lift : {A : Type 0} → Outcome Error A → Reader A
lift (ok a) s = ok (a, s)
lift (err e) s = err e
lift panic s = panic
lift out_of_fuel s = out_of_fuel

unfoldable pub read_id : Reader ChunkId
unfolding chunk_id_from_slice lift
read_id = do b ← read_full 32; lift (chunk_id_from_slice b)

pub record FormatHeader : Type 0 where
  pub size : ℕ
  pub type : ℕ

unfoldable pub read_header : Reader FormatHeader
read_header = do size ← read_uint64; type ← read_uint64; pure (record { size = size; type = type })

-- `WriteUint64`: eight bytes for each value.
unfoldable pub write_uint64 : List ℕ → List ℕ
write_uint64 [] = []
write_uint64 (v ∷ values) = le_bytes 8 v ++ write_uint64 values

unfoldable pub write_id : ChunkId → List ℕ
write_id c = c
