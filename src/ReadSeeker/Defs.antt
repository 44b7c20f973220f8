-- ===== src/ReadSeeker/Defs.antt =====
-- `IndexPos`, `findOffset` and `Seek` of readseeker.go.
--
-- Positions are int64 there; they are compared here without the differences that may be negative.
use desync.Common.{
  ℕ, suc, ◌+◌, ◌-◌, List, [], ◌∷◌, length, get_elem?, leb, ltb, ◌==◌, ◌&&◌, Bool, none, some,
  if◌then◌else◌,
}
use desync.Common.Outcome.{Outcome, ok, err, panic, out_of_fuel}
use desync.Chunk.Defs.{id_equal}
use desync.Index.Defs.{Index, IndexChunk, index_length}
use desync.Stream.Defs.{ChunkId}

pub record IndexPos : Type 0 where
  pub chunks : List IndexChunk
  pub length : ℕ
  pub pos : ℕ
  pub cur_chunk_id : ChunkId
  -- the data of the current chunk, nothing if it is not loaded
  pub cur_chunk : List ℕ
  pub cur_chunk_idx : ℕ
  pub cur_chunk_offset : ℕ

pub data SeekError : Type 0 where
  begins_behind ends_before end_of_file invalid_whence before_start : SeekError

-- `sort.Search`: the first chunk that ends behind the position, or the number of chunks.
unfoldable pub search_chunk : ℕ → List IndexChunk → ℕ
search_chunk p [] = 0
search_chunk p (c ∷ chunks) =
    let behind = search_chunk p chunks in if ltb p (c.start + c.size) then 0 else suc behind

-- The chunk in which a search ends; the last one if it runs off the end.
unfoldable pub chunk_index : ℕ → List IndexChunk → ℕ
chunk_index p chunks =
    let i = search_chunk p chunks in if leb (length chunks) i then length chunks - 1 else i

-- The general case, with the chunk that was found.
unfoldable pub move_to : IndexPos → ℕ → ℕ → IndexChunk → Outcome SeekError ℕ × IndexPos
move_to ip p i c =
    if ltb p c.start
    then (err begins_behind, ip)
    else if ltb (c.start + c.size) p
    then (err ends_before, ip)
    else (
      ok p,
      record ip {
        cur_chunk = if id_equal c.id ip.cur_chunk_id then ip.cur_chunk else [];
        cur_chunk_idx = i;
        cur_chunk_id = c.id;
        cur_chunk_offset = p - c.start;
        pos = p;
      },
    )

-- Within the current chunk, whose size is `size`: neither in front of it nor behind its last byte.
unfoldable pub stays_inside : IndexPos → ℕ → ℕ → Bool
stays_inside ip size p =
    leb ip.pos (p + ip.cur_chunk_offset) && ltb (p + ip.cur_chunk_offset) (ip.pos + size)

unfoldable pub bisect : IndexPos → ℕ → Outcome SeekError ℕ × IndexPos
unfolding move_to
bisect ip p = elim (get_elem? ip.chunks (chunk_index p ip.chunks)) [
  | none ↦ (panic, ip)
  | some c ↦ move_to ip p (chunk_index p ip.chunks) c
]

unfoldable pub find_offset : IndexPos → ℕ → Outcome SeekError ℕ × IndexPos
unfolding stays_inside
find_offset ip p =
    if p == ip.pos then (ok ip.pos, ip) else elim (get_elem? ip.chunks ip.cur_chunk_idx) [
      | none ↦ (panic, ip)
      | some c ↦
          if stays_inside ip c.size p
          then (ok p, record ip { pos = p; cur_chunk_offset = p + ip.cur_chunk_offset - ip.pos })
          else bisect ip p
    ]

-- The offset of a seek, with its sign.
pub data Offset : Type 0 where
  forward backward : ℕ → Offset

pub data Whence : Type 0 where
  seek_start seek_current seek_end invalid : Whence

unfoldable pub shift : ℕ → Offset → Outcome SeekError ℕ
shift base (forward n) = ok (base + n)
shift base (backward n) = if ltb base n then err before_start else ok (base - n)

-- The position that is asked for.
unfoldable pub target : IndexPos → Offset → Whence → Outcome SeekError ℕ
unfolding shift
target ip offset seek_start = shift 0 offset
target ip offset seek_current = shift ip.pos offset
target ip offset seek_end = shift ip.length offset
target ip offset invalid = err invalid_whence

-- A position behind the end is io.EOF, where `findOffset` has no error.
unfoldable pub seek_to : IndexPos → ℕ → Outcome SeekError ℕ × IndexPos
seek_to ip p =
    let (r, ip') = find_offset ip p in
    elim r [
      | ok q ↦ (if ltb ip.length p then err end_of_file else ok q, ip')
      | other ↦ (other, ip')
    ]

unfoldable pub seek : IndexPos → Offset → Whence → Outcome SeekError ℕ × IndexPos
unfolding seek_to
seek ip offset whence = elim (target ip offset whence) [
  | ok p ↦ seek_to ip p
  | err e ↦ (err e, ip)
  | panic ↦ (panic, ip)
  | out_of_fuel ↦ (out_of_fuel, ip)
]

-- `NewIndexReadSeeker`, which panics on an index without chunks.
unfoldable pub new_index_read_seeker : Index → Outcome SeekError IndexPos
new_index_read_seeker i = elim i.chunks [
  | [] ↦ panic
  | c ∷ chunks ↦ ok (record {
    chunks = i.chunks;
    length = index_length i;
    pos = 0;
    cur_chunk_id = c.id;
    cur_chunk = [];
    cur_chunk_idx = 0;
    cur_chunk_offset = 0;
  })
]
