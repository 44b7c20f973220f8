-- ===== src/Chunker/Sizes.antt =====
-- What one call of `Next` returns, and what it does with equal sizes; the loop of `Next` against
-- the operations of `Hash`.
use desync.Common.{
  ℕ, ◌+◌, ◌%◌, ◌^◌, ◌≤◌, ◌<◌, ◌≡◌, ◌⊎◌, [], ◌++◌, length, leb, none, true, ◌∙◌, false, length-take,
  arith,
}
use desync.Chunker.Defs.{
  Chunker, Rolling, add_byte, split, next, next_in_buffer, scan, chunker_window_size,
  hash_of_rotated, below_int, within_int, min_int,
}
use desync.Chunker.Hash.{Hash, roll}
use desync.Chunker.Stream.{IsChunker, remaining, next-IsNextOf, drop-cons}

module _ (c : Chunker) (w : IsChunker c) where
  -- For sizes that are accepted, the smallest below the largest: a call of `Next`, also one that
  -- returns an error, loses no byte and repeats none, and the start of the next chunk is the end
  -- of this one, up to 64 bits.
  next-remaining :
      ((next c).bytes ++ remaining (next c).chunker ≡ remaining c)
      × ((next c).start ≡ c.start)
      × ((next c).chunker.start ≡ (c.start + length (next c).bytes) % 2 ^ 64)
  next-remaining = let n = next-IsNextOf c w in (n.kept, n.start, n.moved)

  -- For sizes that are accepted, the smallest below the largest: data that comes without an error
  -- is not longer than the largest size, and longer than the smallest one unless nothing of the
  -- stream is left behind it.
  next-sizes :
      (next c).error ≡ none
      → (length (next c).bytes ≤ c.max)
        × ((c.min < length (next c).bytes) ⊎ (remaining (next c).chunker ≡ []))
  next-sizes e = let n = next-IsNextOf c w in (n.at_most e, n.above_min e)

-- Where the smallest and the largest size are equal and more bytes than that are in the buffer,
-- the data is one byte longer than the largest size.
pub next_too_long :
    (c : Chunker) → c.min ≡ c.max → c.max < length c.buf → length (next c).bytes ≡ c.max + 1
unfolding next next_in_buffer scan split below_int within_int min_int
next_too_long c same more =
    let (x, rest, e) = drop-cons c.min c.buf (omega arith) in
    let full : below_int (length c.buf) c.max ≡ false = ground arith in
    let enough : within_int (length c.buf) c.min ≡ false = ground arith in
    let at_end : leb (min_int (length c.buf) c.max) (c.min + 1) ≡ true = ground arith in
    rw (next, full, next_in_buffer, enough, e, scan, at_end, split)
      (length-take (c.min + 1) c.buf ∙ omega arith)

-- The variables of the loop as a `Hash`.
abbrev as_hash : ℕ → Rolling → Hash
as_hash discriminator h = record {
  value = h.value;
  window = h.window;
  size = chunker_window_size;
  idx = h.idx;
  discriminator = discriminator;
}

-- With a window of 48 bytes and a position in it, a step of the loop is what `Roll` does: the
-- table of rotated values and the reset of the position change nothing.
as_hash-add_byte :
    (discriminator : ℕ) (h : Rolling) (b : ℕ)
    → length h.window ≡ 48
    → h.idx < 48
    → as_hash discriminator (add_byte h b) ≡ roll (as_hash discriminator h) b
unfolding add_byte roll hash_of_rotated
as_hash-add_byte discriminator h b full inside = ground arith
