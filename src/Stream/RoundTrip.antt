-- ===== src/Stream/RoundTrip.antt =====
-- About reader.go and writer.go together.
use desync.Common.{
  [], ◌*◌, ◌^◌, ◌%◌, ◌∙◌, append_assoc, ◌∷◌, ℕ, zero, suc, ◌/◌, ◌≤◌, ◌≡◌, refl, ap, List, ◌++◌,
  length, length-append, take-length_append, drop-length_append, arith,
}
use desync.Common.Outcome.{ok}
use desync.Stream.Defs.{
  Reader, ◌>>=◌, read_header, write_uint64, ChunkId, IsU64, max_alloc, le_bytes, le_uint, read_full,
  read_n, read_uint64, read_id,
}

pub length-le_bytes : (k v : ℕ) → length (le_bytes k v) ≡ k
unfolding le_bytes
length-le_bytes zero v = refl
length-le_bytes (suc k) v = ap suc (length-le_bytes k (v / 256))

pub le_uint-le_bytes : (v : ℕ) → IsU64 v → le_uint (le_bytes 8 v) ≡ v
unfolding le_bytes le_uint
le_uint-le_bytes v h = omega arith

pub read_full-append : (b rest : List ℕ) → read_full (length b) (b ++ rest) ≡ ok (b, rest)
unfolding read_full
read_full-append b rest =
    ground (arith, length-append b rest, take-length_append b rest, drop-length_append b rest)

pub read_n-append :
    (b rest : List ℕ) → length b ≤ max_alloc → read_n (length b) (b ++ rest) ≡ ok (b, rest)
unfolding read_n
read_n-append b rest h = ground (arith, read_full-append b rest)

le_uint-le_bytes_mod : (v : ℕ) → le_uint (le_bytes 8 v) ≡ v % 2 ^ 64
unfolding le_bytes le_uint
le_uint-le_bytes_mod v = omega arith

read_uint64-le_bytes_mod :
    (v : ℕ) (rest : List ℕ) → read_uint64 (le_bytes 8 v ++ rest) ≡ ok (v % 2 ^ 64, rest)
unfolding read_uint64
read_uint64-le_bytes_mod v rest =
    ground
      (arith, read_full-append (le_bytes 8 v) rest, length-le_bytes 8 v, le_uint-le_bytes_mod v)

-- A number that was written is read back, and nothing behind it is touched.
pub read_uint64-le_bytes :
    (v : ℕ) (rest : List ℕ) → IsU64 v → read_uint64 (le_bytes 8 v ++ rest) ≡ ok (v, rest)
unfolding read_uint64
read_uint64-le_bytes v rest h =
    ground (arith, read_full-append (le_bytes 8 v) rest, length-le_bytes 8 v, le_uint-le_bytes v h)

pub read_id-append :
    (c : ChunkId) (rest : List ℕ) → length c ≡ 32 → read_id (c ++ rest) ≡ ok (c, rest)
unfolding read_id
read_id-append c rest h = ground (arith, read_full-append c rest)

-- A step of a block whose action is known to succeed.
pub bind_step :
    {A B : Type 0} (m : Reader A) (k : A → Reader B) {s s' : List ℕ} {a : A}
    → m s ≡ ok (a, s')
    → (m >>= k) s ≡ k a s'
bind_step m k e = rw (e, ◌>>=◌)

-- One step of a block that reads back numbers which were written together.
pub read_uint64-bind :
    {A : Type 0} (v : ℕ) (vs rest : List ℕ) (k : ℕ → Reader A)
    → IsU64 v
    → (read_uint64 >>= k) (write_uint64 (v ∷ vs) ++ rest) ≡ k v (write_uint64 vs ++ rest)
unfolding write_uint64
read_uint64-bind v vs rest k h =
    rw append_assoc (bind_step read_uint64 k (read_uint64-le_bytes v (write_uint64 vs ++ rest) h))

-- A number of any size takes eight bytes, and its lowest 64 bits are read.
pub read_uint64-bind_mod :
    {A : Type 0} (v : ℕ) (vs rest : List ℕ) (k : ℕ → Reader A)
    → (read_uint64 >>= k) (write_uint64 (v ∷ vs) ++ rest) ≡ k (v % 2 ^ 64) (write_uint64 vs ++ rest)
unfolding write_uint64
read_uint64-bind_mod v vs rest k =
    rw append_assoc (bind_step read_uint64 k (read_uint64-le_bytes_mod v (write_uint64 vs ++ rest)))

pub write_uint64-cons :
    (v : ℕ) (vs : List ℕ) → write_uint64 (v ∷ vs) ≡ write_uint64 (v ∷ []) ++ write_uint64 vs
unfolding write_uint64
write_uint64-cons v vs = rw append_assoc

pub write_uint64-pair :
    (a b : ℕ) (vs : List ℕ)
    → write_uint64 (a ∷ b ∷ vs) ≡ write_uint64 (a ∷ b ∷ []) ++ write_uint64 vs
unfolding write_uint64
write_uint64-pair a b vs = simp append_assoc

pub length-write_uint64 : (vs : List ℕ) → length (write_uint64 vs) ≡ 8 * length vs
unfolding write_uint64
length-write_uint64 [] = refl
length-write_uint64 (v ∷ vs) = omega (
  arith,
  length-append (le_bytes 8 v) (write_uint64 vs),
  length-le_bytes 8 v,
  length-write_uint64 vs,
)

pub write_uint64-nil : (rest : List ℕ) → write_uint64 [] ++ rest ≡ rest
unfolding write_uint64
write_uint64-nil rest = refl

pub read_header-write_uint64 :
    (size type : ℕ) (vs rest : List ℕ)
    → IsU64 size
    → IsU64 type
    → read_header (write_uint64 (size ∷ type ∷ vs) ++ rest)
      ≡ ok (record { size = size; type = type }, write_uint64 vs ++ rest)
unfolding read_header
read_header-write_uint64 size type vs rest hs ht =
    read_uint64-bind size (type ∷ vs) rest _ hs ∙ read_uint64-bind type vs rest _ ht
