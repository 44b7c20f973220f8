-- ===== src/Tests/Seeking.antt =====
-- Seeks in a blob of 363 bytes.
use desync.Common.{
  ℕ, zero, suc, ◌+◌, ◌≡◌, refl, sym, ap, subst, ◌∙◌, inl, List, [], ◌∷◌, replicate, get_elem?, min,
  ltb, true, false, some, some_inj, if◌then◌else◌, arith,
}
use desync.Common.Outcome.{ok}
use desync.Index.Defs.{IndexChunk}
use desync.Chunk.Defs.{NullChunk, new_chunk, data_of, id_equal}
use desync.Files.{bytes_from}
use desync.ReadSeeker.Contents.{read-bytes_from}
use desync.ReadSeeker.Moves.{SameData, IsReading}
use desync.ReadSeeker.Reading.{read}
use desync.Sparse.Load.{Serves}
use desync.Store.Defs.{Store}
use desync.Tests.Chunks.{pack, unpack}
use desync.ReadSeeker.Defs.{IndexPos, backward, seek, seek_end, target}
use desync.ReadSeeker.Position.{IsPositioned, seek-IsPositioned}

abbrev middle : IndexChunk
middle = record { id = replicate 32 2; start = 100; size = 256 }

abbrev blob_chunks : List IndexChunk
blob_chunks =
    record { id = replicate 32 1; start = 0; size = 100 }
    ∷ middle
    ∷ record { id = replicate 32 1; start = 356; size = 7 }
    ∷ []

abbrev in_the_middle : IndexPos
in_the_middle = record {
  chunks = blob_chunks;
  length = 363;
  pos = 110;
  cur_chunk_id = replicate 32 2;
  cur_chunk = [];
  cur_chunk_idx = 1;
  cur_chunk_offset = 10;
}

in_the_middle-IsPositioned : IsPositioned in_the_middle middle
in_the_middle-IsPositioned = record {
  tiles = (refl, (refl, (refl, refl)));
  current = refl;
  at = refl;
  within = omega arith;
}

near_the_end : target in_the_middle (backward 300) seek_end ≡ ok 63
unfolding target
near_the_end = refl

seek-IsPositioned_example :
    (d : IndexChunk) × ((seek in_the_middle (backward 300) seek_end).0 ≡ ok 63)
    × ((seek in_the_middle (backward 300) seek_end).1.pos ≡ 63)
    × IsPositioned (seek in_the_middle (backward 300) seek_end).1 d
seek-IsPositioned_example =
    seek-IsPositioned in_the_middle middle (backward 300) seek_end 63 in_the_middle-IsPositioned
      near_the_end (omega arith)

-- A blob of seven bytes in two chunks, of which the second is the null chunk.
abbrev small_blob : ℕ → ℕ
small_blob i = if ltb i 4 then i + 1 else 0

abbrev first_chunk : IndexChunk
first_chunk = record { id = 1 ∷ []; start = 0; size = 4 }

abbrev second_chunk : IndexChunk
second_chunk = record { id = 2 ∷ []; start = 4; size = 3 }

abbrev small_chunks : List IndexChunk
small_chunks = first_chunk ∷ second_chunk ∷ []

abbrev small_store : Store (Unit {0})
small_store = record {
  get_chunk = λ id w. (ok (new_chunk (1 ∷ 2 ∷ 3 ∷ 4 ∷ [])), w);
  has_chunk = λ id w. (ok true, w);
  close = λ w. (ok tt, w);
}

abbrev small_null : NullChunk
small_null = record { content = 0 ∷ 0 ∷ 0 ∷ []; id = 2 ∷ [] }

abbrev at_start : IndexPos
at_start = record {
  chunks = small_chunks;
  length = 7;
  pos = 1;
  cur_chunk_id = 1 ∷ [];
  cur_chunk = [];
  cur_chunk_idx = 0;
  cur_chunk_offset = 1;
}

at_start-IsReading : IsReading small_blob at_start first_chunk
at_start-IsReading = record {
  positioned = record {
    tiles = (refl, (refl, refl));
    current = refl;
    at = refl;
    within = omega arith;
  };
  id = refl;
  inside = λ h. omega arith;
  last = λ h. absurd (omega arith);
  loaded = inl refl;
}

small-SameData : SameData small_blob small_chunks
small-SameData zero zero c d e f h =
    ap (λ (x : IndexChunk). bytes_from small_blob x.size x.start) (some_inj (sym e ∙ f))
small-SameData (suc zero) (suc zero) c d e f h =
    ap (λ (x : IndexChunk). bytes_from small_blob x.size x.start) (some_inj (sym e ∙ f))
small-SameData zero (suc zero) c d e f h =
    let same =
      ap (λ (x : IndexChunk). x.id) (some_inj e)
      ∙ h
      ∙ sym (ap (λ (x : IndexChunk). x.id) (some_inj f)) in
    cc
small-SameData (suc zero) zero c d e f h =
    let same =
      ap (λ (x : IndexChunk). x.id) (some_inj e)
      ∙ h
      ∙ sym (ap (λ (x : IndexChunk). x.id) (some_inj f)) in
    cc
small-SameData zero (suc (suc j)) c d e f h = cc
small-SameData (suc zero) (suc (suc j)) c d e f h = cc
small-SameData (suc (suc i)) j c d e f h = cc

small-Serves : Serves pack unpack small_store small_blob small_chunks (2 ∷ [])
unfolding new_chunk data_of bytes_from id_equal
small-Serves zero c w e h =
    let is = some_inj e in
    (
      new_chunk (1 ∷ 2 ∷ 3 ∷ 4 ∷ []),
      w,
      refl,
      ap (λ (x : IndexChunk). ok (bytes_from small_blob x.size x.start)) is,
    )
small-Serves (suc zero) c w e h =
    let bad : id_equal (2 ∷ []) (2 ∷ []) ≡ false =
      subst (λ (x : IndexChunk). id_equal x.id (2 ∷ []) ≡ false) (sym (some_inj e)) h in
    cc
small-Serves (suc (suc i)) c w e h = cc

small_nulls :
    (i : ℕ) (c : IndexChunk)
    → get_elem? small_chunks i ≡ some c
    → id_equal c.id small_null.id ≡ true
    → small_null.content ≡ bytes_from small_blob c.size c.start
unfolding bytes_from id_equal
small_nulls zero c e h =
    let bad : id_equal (1 ∷ []) (2 ∷ []) ≡ true =
      subst (λ (x : IndexChunk). id_equal x.id (2 ∷ []) ≡ true) (sym (some_inj e)) h in
    cc
small_nulls (suc zero) c e h =
    ap (λ (x : IndexChunk). bytes_from small_blob x.size x.start) (some_inj e)
small_nulls (suc (suc i)) c e h = cc

read-bytes_from_example :
    ((read pack unpack small_store small_null 6 5 at_start tt).bytes
      ≡ bytes_from small_blob (min 5 6) 1)
    × ((read pack unpack small_store small_null 6 5 at_start tt).error ≡ ok tt)
read-bytes_from_example =
    read-bytes_from pack unpack small_store small_null small_blob small_chunks small-SameData
      small-Serves small_nulls 6 5 at_start first_chunk tt at_start-IsReading refl (omega arith)
      (omega arith)
