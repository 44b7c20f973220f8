-- ===== src/ReadSeeker/Position.antt =====
-- About the position after `findOffset` and `Seek` of readseeker.go.
use desync.Common.{
  ℕ, suc, ◌+◌, ◌^◌, ◌≤◌, ◌<◌, ◌≡◌, inl, inr, refl, ap, subst, List, [], ◌∷◌, get_elem?, ltb, ◌==◌,
  ==_iff, Bool-cases, some, true, false, arith, sym,
}
use desync.Common.Outcome.{ok}
use desync.Index.Defs.{Index, IndexChunk, index_length}
use desync.Index.Layout.{Tiles, last_end_lem}
use desync.ReadSeeker.Defs.{
  IndexPos, search_chunk, chunk_index, move_to, stays_inside, bisect, find_offset,
  new_index_read_seeker, Offset, Whence, target, seek_to, seek,
}

-- The chunks tile the blob, and the position is where the offset in the current chunk says, which is
-- not behind the end of that chunk.
pub record IsPositioned (ip : IndexPos) (c : IndexChunk) : Type 0 where
  pub tiles : Tiles 0 ip.chunks ip.length
  pub current : get_elem? ip.chunks ip.cur_chunk_idx ≡ some c
  pub at : ip.pos ≡ c.start + ip.cur_chunk_offset
  pub within : ip.cur_chunk_offset ≤ c.size

pub chunk_index-cons :
    (p : ℕ) (c d : IndexChunk) (chunks : List IndexChunk)
    → ltb p (c.start + c.size) ≡ false
    → chunk_index p (c ∷ d ∷ chunks) ≡ suc (chunk_index p (d ∷ chunks))
unfolding chunk_index search_chunk
chunk_index-cons p c d chunks h = ground arith

pub chunk_index-here :
    (p : ℕ) (c d : IndexChunk) (chunks : List IndexChunk)
    → ltb p (c.start + c.size) ≡ true
    → chunk_index p (c ∷ d ∷ chunks) ≡ 0
unfolding chunk_index search_chunk
chunk_index-here p c d chunks h = ground arith

-- The chunk that is found contains the position.
chunk_index-get_elem? :
    (start p finish : ℕ) (c : IndexChunk) (chunks : List IndexChunk)
    → Tiles start (c ∷ chunks) finish
    → start ≤ p
    → p ≤ finish
    → (d : IndexChunk) × (get_elem? (c ∷ chunks) (chunk_index p (c ∷ chunks)) ≡ some d)
      × (d.start ≤ p)
      × (p ≤ d.start + d.size)
unfolding chunk_index search_chunk
chunk_index-get_elem? start p finish c [] (e, t) lo hi = (c, ground arith, omega arith, omega arith)
chunk_index-get_elem? start p finish c (d ∷ chunks) (e, t) lo hi =
    elim (Bool-cases (ltb p (c.start + c.size))) [
      | inl here ↦ (c, rw (chunk_index-here p c d chunks here) refl, omega arith, ground arith)
      | inr behind ↦
          let (x, got, lo', hi') =
            chunk_index-get_elem? (start + c.size) p finish d chunks t (ground arith) hi in
          (x, rw (chunk_index-cons p c d chunks behind) got, lo', hi')
    ]

-- Without chunks there is no current one.
pub find_chunk :
    (p total : ℕ) (c : IndexChunk) (i : ℕ) (chunks : List IndexChunk)
    → Tiles 0 chunks total
    → get_elem? chunks i ≡ some c
    → p ≤ total
    → (d : IndexChunk) × (get_elem? chunks (chunk_index p chunks) ≡ some d)
      × (d.start ≤ p)
      × (p ≤ d.start + d.size)
find_chunk p total c i [] t h le = cc
find_chunk p total c i (x ∷ chunks) t h le =
    chunk_index-get_elem? 0 p total x chunks t (omega arith) le

pub stays_inside_bounds :
    (ip : IndexPos) (size p : ℕ)
    → stays_inside ip size p ≡ true
    → (ip.pos ≤ p + ip.cur_chunk_offset) × (p + ip.cur_chunk_offset < ip.pos + size)
unfolding stays_inside
stays_inside_bounds ip size p h = ground arith

module _ (ip : IndexPos) (c : IndexChunk) (w : IsPositioned ip c) (p : ℕ) (le : p ≤ ip.length) where
  bisect-IsPositioned :
      (d : IndexChunk) × ((bisect ip p).0 ≡ ok p)
      × ((bisect ip p).1.pos ≡ p)
      × IsPositioned (bisect ip p).1 d
  unfolding bisect move_to
  bisect-IsPositioned =
      let (d, got, lo, hi) =
        find_chunk p ip.length c ip.cur_chunk_idx ip.chunks w.tiles w.current le in
      let low : ltb p d.start ≡ false = ground arith in
      let high : ltb (d.start + d.size) p ≡ false = ground arith in
      rw (bisect, got, low, high)
        (
          d,
          refl,
          refl,
          record { tiles = w.tiles; current = got; at = omega arith; within = omega arith },
        )

  -- In a valid state `findOffset` of a position within the blob returns that position, and leaves
  -- a valid state at it: the offset in the current chunk is the right one and not behind its end.
  find_offset-IsPositioned :
      (d : IndexChunk) × ((find_offset ip p).0 ≡ ok p)
      × ((find_offset ip p).1.pos ≡ p)
      × IsPositioned (find_offset ip p).1 d
  unfolding find_offset
  find_offset-IsPositioned = elim (Bool-cases (p == ip.pos)) [
    | inl same ↦
        let e : p ≡ ip.pos = (==_iff _ _).0 same in
        rw (find_offset, same) (c, ap (λ n. ok n) (sym e), sym e, w)
    | inr moved ↦ elim (Bool-cases (stays_inside ip c.size p)) [
      | inl inside ↦
          let (lo, hi) = stays_inside_bounds ip c.size p inside in
          rw (find_offset, moved, w.current, inside)
            (
              c,
              refl,
              refl,
              record {
                tiles = w.tiles;
                current = w.current;
                at = omega (arith, w.at);
                within = omega (arith, w.at);
              },
            )
      | inr outside ↦ rw (find_offset, moved, w.current, outside) bisect-IsPositioned
    ]
  ]

-- In a valid state, where the chunks tile the blob and the position is where the offset in the
-- current chunk says, a seek to a position within the blob, whatever its offset is relative to,
-- returns that position and leaves a valid state at it.
pub seek-IsPositioned :
    (ip : IndexPos) (c : IndexChunk) (offset : Offset) (whence : Whence) (p : ℕ)
    → IsPositioned ip c
    → target ip offset whence ≡ ok p
    → p ≤ ip.length
    → (d : IndexChunk) × ((seek ip offset whence).0 ≡ ok p)
      × ((seek ip offset whence).1.pos ≡ p)
      × IsPositioned (seek ip offset whence).1 d
unfolding seek seek_to
seek-IsPositioned ip c offset whence p w asked le =
    let (d, result, at, valid) = find_offset-IsPositioned ip c w p le in
    let inside : ltb ip.length p ≡ false = ground arith in
    rw (seek, asked, seek_to, result, inside) (d, refl, at, valid)

-- An index with at least one chunk, whose chunks tile a blob of `total` bytes, less than 2 ^ 64,
-- is opened at the start of its first chunk, in a valid state, with `total` as its length.
new_index_read_seeker-IsPositioned :
    (i : Index) (c : IndexChunk) (chunks : List IndexChunk) (total : ℕ)
    → i.chunks ≡ c ∷ chunks
    → Tiles 0 i.chunks total
    → total < 2 ^ 64
    → (ip : IndexPos) × (new_index_read_seeker i ≡ ok ip)
      × (ip.pos ≡ 0)
      × (ip.length ≡ total)
      × IsPositioned ip c
unfolding new_index_read_seeker index_length
new_index_read_seeker-IsPositioned i c chunks total e t h =
    let t' : Tiles 0 (c ∷ chunks) total = subst (λ l. Tiles 0 l total) e t in
    (
      record {
        chunks = i.chunks;
        length = index_length i;
        pos = 0;
        cur_chunk_id = c.id;
        cur_chunk = [];
        cur_chunk_idx = 0;
        cur_chunk_offset = 0;
      },
      ground arith,
      refl,
      last_end_lem total i.chunks t h,
      record {
        tiles = rw (last_end_lem total i.chunks t h) t;
        current = rw e refl;
        at = omega (arith, t'.0);
        within = omega arith;
      },
    )
