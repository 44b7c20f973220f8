-- ===== src/Chunker/Defs.antt =====
-- `Chunker` of chunker.go.
--
-- The discriminator for an average size is computed there in floating point, which the model takes
-- as a parameter; where it is 0 the division by its odd part panics. The buffer that `fillBuffer` asks
-- for is taken to be available: that `make` panics from 2 ^ 63 bytes on is not modelled, nor the panic
-- of the window's slice for a smallest size from 2 ^ 63 on. The slice that `Next` returns is a value here: that it shares the buffer, and is
-- overwritten by a later call, is not modelled.
use desync.Common.{
  ℕ, ◌+◌, ◌-◌, ◌*◌, ◌%◌, ◌^◌, List, [], ◌∷◌, ◌++◌, length, take, drop, set, replicate, leb, ltb,
  ◌==◌, ◌&&◌, Option, none, some, Bool, true, false, if◌then◌else◌, min, bit_xor,
}
use desync.Common.Outcome.{Outcome, ok, err, panic}
use desync.Chunker.Hash.{hash_of, byte_at, mix_window}
use desync.Chunker.Source.{Source, ReadError, end_of_file, broken, Filled, fill}
use desync.Chunker.Words.{Divider, new_divider, is_boundary, rotate_left32}

abbrev pub chunker_window_size : ℕ
chunker_window_size = 48

pub record Chunker : Type 0 where
  pub r : Source
  pub min : ℕ
  pub avg : ℕ
  pub max : ℕ
  pub start : ℕ
  pub buf : List ℕ
  pub hit_eof : Bool
  pub h_value : ℕ
  pub h_window : List ℕ
  pub h_idx : ℕ
  pub h_discriminator : ℕ
  pub divider : Divider

pub data SizeError : Type 0 where
  min_too_small min_above_max min_above_avg avg_above_max : SizeError

unfoldable pub new_chunker : (ℕ → ℕ) → Source → ℕ → ℕ → ℕ → Outcome SizeError Chunker
new_chunker discriminator_from_avg r min avg max =
    if ltb min chunker_window_size
    then err min_too_small
    else if ltb max min
    then err min_above_max
    else if ltb avg min
    then err min_above_avg
    else if ltb max avg
    then err avg_above_max
    else if discriminator_from_avg avg == 0
    then panic
    else ok (record {
      r = r;
      min = min;
      avg = avg;
      max = max;
      start = 0;
      buf = [];
      hit_eof = false;
      h_value = 0;
      h_window = replicate chunker_window_size 0;
      h_idx = 0;
      h_discriminator = discriminator_from_avg avg;
      divider = new_divider (discriminator_from_avg avg);
    })

-- The error that `fillBuffer` returns, and whether it has seen the end.
unfoldable pub reported : Option ReadError → Option ReadError × Bool
reported none = (none, false)
reported (some end_of_file) = (none, true)
reported (some (broken e)) = (some (broken e), false)

unfoldable pub filled : Chunker → List ℕ → Filled → Option ReadError × Chunker
unfolding reported
filled c kept f =
    let (e, at_end) = reported f.error in
    (e, record c { buf = kept ++ f.bytes; hit_eof = at_end; r = f.source })

-- The buffer has room for ten chunks, up to 64 bits; what is left over comes first.
unfoldable pub fill_buffer : Chunker → Option ReadError × Chunker
unfolding filled
fill_buffer c =
    if c.hit_eof
    then (none, c)
    else let size : ℕ = 10 * c.max % 2 ^ 64 in
      filled c (take size c.buf) (fill (size - length c.buf) c.r)

-- A length `n` against `int(m)`, which is negative from 2 ^ 63 on: `n < int(m)` and `n <= int(m)`.
unfoldable pub below_int : ℕ → ℕ → Bool
below_int n m = ltb m (2 ^ 63) && ltb n m

unfoldable pub within_int : ℕ → ℕ → Bool
within_int n m = ltb m (2 ^ 63) && leb n m

-- `min(n, int(m))`, with 0 for a negative number: the loop compares it with positions above 0 only.
unfoldable pub min_int : ℕ → ℕ → ℕ
min_int n m = if ltb m (2 ^ 63) then min n m else 0

-- What `Next` returns: the start, the data and the error; and the chunker behind it.
pub record Split : Type 0 where
  pub start : ℕ
  pub bytes : List ℕ
  pub error : Option ReadError
  pub chunker : Chunker

unfoldable pub split : Chunker → ℕ → Option ReadError → Split
split c i e = record {
  start = c.start;
  bytes = take i c.buf;
  error = e;
  chunker = record c { buf = drop i c.buf; start = (c.start + i) % 2 ^ 64; h_idx = 0; h_value = 0 };
}

-- `hashTableRotated[out]`
unfoldable pub hash_of_rotated : ℕ → ℕ
hash_of_rotated b = rotate_left32 (hash_of b) chunker_window_size

-- The variables of the loop.
pub record Rolling : Type 0 where
  pub value : ℕ
  pub window : List ℕ
  pub idx : ℕ

unfoldable pub add_byte : Rolling → ℕ → Rolling
add_byte h b =
    let out : ℕ = byte_at h.window h.idx in
    record {
      window = set h.window h.idx b;
      idx = if leb chunker_window_size (h.idx + 1) then 0 else h.idx + 1;
      value = bit_xor (bit_xor (rotate_left32 h.value 1) (hash_of_rotated out)) (hash_of b);
    }

-- The loop, over the bytes of the buffer from `pos` on; `m` is the end of the largest chunk. It gives
-- the position behind the chunk and the hash there.
unfoldable pub scan : Divider → ℕ → Rolling → ℕ → List ℕ → ℕ × Rolling
scan v m h pos [] = (pos, h)
scan v m h pos (b ∷ bs) =
    let h' = add_byte h b in
    let rest = scan v m h' (pos + 1) bs in
    if leb m (pos + 1)
    then (pos + 1, h')
    else if is_boundary v h'.value
    then (pos + 1, h')
    else rest

-- `Next` behind the call of `fillBuffer`, where it did not fail.
unfoldable pub next_in_buffer : Chunker → Split
next_in_buffer c =
    if within_int (length c.buf) c.min
    then split c (length c.buf) none
    else let m : ℕ = min_int (length c.buf) c.max in
      let window : List ℕ = take chunker_window_size (drop (c.min - chunker_window_size) c.buf) in
      let h : Rolling = record {
        value = mix_window chunker_window_size 0 c.h_value window;
        window = window;
        idx = c.h_idx;
      } in
      let (pos, h') = scan c.divider m h c.min (drop c.min c.buf) in
      split (record c { h_value = h'.value; h_window = h'.window; h_idx = h'.idx }) pos none

unfoldable pub after_fill : Option ReadError × Chunker → Split
after_fill (none, c) = next_in_buffer c
after_fill (some e, c) = split c (length c.buf) (some e)

unfoldable pub next : Chunker → Split
unfolding after_fill
next c = if below_int (length c.buf) c.max then after_fill (fill_buffer c) else next_in_buffer c
