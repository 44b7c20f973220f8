-- ===== src/Tests/Assembling.antt =====
-- A chunk written into a blank target, and the verification of a file.
use desync.Common.{
  ℕ, ◌≡◌, ◌↔◌, ◌⊎◌, refl, ap, subst, ◌∙◌, List, [], ◌∷◌, replicate, All, true, false, Bool-cases,
  some, inl, inr, if◌then◌else◌, arith,
}
use desync.Common.Outcome.{Outcome, ok, err}
use desync.Assemble.{Overlapping, write_chunk, from_self_seed, from_answer, from_data}
use desync.Assemble.Sound.{IsWritten, IsSource, write_chunk_sound}
use desync.Chunk.Defs.{Chunk, StoreError, chunk_missing, new_chunk, data_of, id_equal}
use desync.Chunk.Storage.{id_equal→eq}
use desync.Files.{File, copy_range, write_at}
use desync.Index.Defs.{Index, IndexChunk, index_length}
use desync.Seeds.SelfSeed.{SelfSeed, get_chunk}
use desync.Seeds.Writing.{CloneRange, short_read}
use desync.Seeds.Writing.Clone.{Clones}
use desync.Store.Defs.{Store}
use desync.Stream.Defs.{ChunkId}
use desync.Tests.Chunks.{pack, unpack, sum_length}
use desync.Verify.{verify_index}
use desync.Verify.Batches.{IsIntact, verify_index_iff}

abbrev three_bytes : ChunkId
three_bytes = replicate 32 3

abbrev by_length : Store (Unit {0})
by_length = record {
  get_chunk = λ id w.
      if id_equal three_bytes id
      then (ok (new_chunk (7 ∷ 8 ∷ 9 ∷ [])), w)
      else (err (chunk_missing id), w);
  has_chunk = λ id w. (ok true, w);
  close = λ w. (ok tt, w);
}

ok_inj : {E A : Type 0} {x y : A} → ◌≡◌ {A = Outcome E A} (ok x) (ok y) → x ≡ y
ok_inj e = cc

unpacked :
    (b : List ℕ)
    → (data_of pack unpack (new_chunk (7 ∷ 8 ∷ 9 ∷ []))).0 ≡ ok b
    → sum_length b ≡ three_bytes
unfolding data_of new_chunk
unpacked b h = subst (λ x. sum_length x ≡ three_bytes) (ok_inj h) refl

by_length_vouches :
    (id : ChunkId) (w w' : Unit {0}) (ch : Chunk) (b : List ℕ)
    → by_length.get_chunk id w ≡ (ok ch, w')
    → (data_of pack unpack ch).0 ≡ ok b
    → sum_length b ≡ id
by_length_vouches id w w' ch b got bytes = elim (Bool-cases (id_equal three_bytes id)) [
  | inl same ↦
      let e = rw same at got in
      let ch_is : new_chunk (7 ∷ 8 ∷ 9 ∷ []) ≡ ch =
        ok_inj (ap (λ (x : Outcome StoreError Chunk × Unit {0}). x.0) e) in
      unpacked b (ap (λ c. (data_of pack unpack c).0) ch_is ∙ bytes)
      ∙ id_equal→eq three_bytes id same
  | inr differ ↦
      let e = rw differ at got in
      let bad = ap (λ (x : Outcome StoreError Chunk × Unit {0}). x.0) e in cc
]

abbrev all_at_once : CloneRange
all_at_once dst src i n j = some (copy_range dst src i n j)

all_at_once-Clones : Clones all_at_once 4
all_at_once-Clones dst src i n j ne h = refl

abbrev blank : File
blank = record { size = 10; at = λ j. 0 }

abbrev wanted : IndexChunk
wanted = record { id = three_bytes; start = 2; size = 3 }

abbrev nothing_yet : SelfSeed
nothing_yet = record {
  file = 1;
  chunks = wanted ∷ [];
  pos = λ id. [];
  can_reflink = false;
  written = 0;
  cache = [];
}

-- Copying within overlapping ranges that leaves the file as it is.
abbrev untouched : Overlapping
untouched f cs reflink off n block = (err short_read, f)

wanted-IsSource : IsSource sum_length nothing_yet blank 4 wanted
unfolding get_chunk
wanted-IsSource file cs reflink h = let bad = ok_inj h in cc

written :
    write_chunk pack unpack sum_length all_at_once untouched by_length wanted nothing_yet blank 4
      true tt
    ≡ (ok tt, write_at blank (7 ∷ 8 ∷ 9 ∷ []) 2, tt)
unfolding write_chunk get_chunk from_self_seed from_answer from_data id_equal data_of new_chunk
written = refl

write_chunk_sound_example : IsWritten sum_length wanted blank (write_at blank (7 ∷ 8 ∷ 9 ∷ []) 2)
write_chunk_sound_example =
    write_chunk_sound pack unpack sum_length all_at_once untouched by_length by_length_vouches 4
      all_at_once-Clones (omega arith) wanted nothing_yet blank (write_at blank (7 ∷ 8 ∷ 9 ∷ []) 2)
      true tt tt wanted-IsSource written

abbrev short_index : Index
short_index = record {
  index = record {
    header = record { size = 48; type = 0 };
    feature_flags = 0;
    chunk_size_min = 16;
    chunk_size_avg = 64;
    chunk_size_max = 256;
  };
  chunks = record wanted { start = 0 } ∷ record wanted { start = 3 } ∷ [];
}

verify_index_iff_example :
    (verify_index sum_length (λ k. false) false blank short_index 2 ≡ ok tt) ↔ (
      ((false ≡ true) ⊎ (blank.size ≡ index_length short_index))
      × All (IsIntact sum_length blank) short_index.chunks)
verify_index_iff_example =
    verify_index_iff sum_length (λ k. false) false blank short_index 2 (λ k. refl)
      (λ h. ground arith)
