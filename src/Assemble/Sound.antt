-- ===== src/Assemble/Sound.antt =====
-- About the target behind `writeChunk` of assemble.go.
use desync.Common.{
  ℕ, zero, suc, ◌+◌, ◌-◌, ◌/◌, ◌^◌, ◌≤◌, ◌<◌, ◌≡◌, refl, sym, ap, subst, ◌∙◌, List, [], ◌∷◌, length,
  leb, ◌==◌, Bool, true, false, Bool-cases, Option, Option-cases, none, some, some_inj, ◌⊎◌, inl,
  inr, ◌||◌, if◌then◌else◌, arith,
}
use desync.Common.Outcome.{Outcome, ok, err, panic, out_of_fuel}
use desync.Assemble.{
  Overlapping, overlaps, Written, of_segment, from_data, from_answer, from_self_seed, write_chunk,
}
use desync.Chunk.Defs.{Chunk, Convert, StoreError, id_equal, data_of}
use desync.Chunk.Storage.{id_equal→eq}
use desync.Files.{File, between, bytes_from, get_or, read_at, write_at, copy_range}
use desync.Index.Defs.{IndexChunk}
use desync.Seeds.Defs.{SeedSegment, file_segment, null_section, size_of_chunks, last_end_of}
use desync.Seeds.SelfSeed.{SelfSeed, get_chunk}
use desync.Seeds.Writing.{CloneRange}
use desync.Seeds.Writing.Clone.{Clones, write_file_segment-copy_range}
use desync.Store.Defs.{Store}
use desync.Stream.Defs.{ChunkId}

-- The target has the chunk, and is otherwise as it was.
pub record IsWritten (sum : List ℕ → ChunkId) (c : IndexChunk) (f f' : File) : Type 0 where
  pub digest : sum (bytes_from f'.at c.size c.start) ≡ c.id
  pub others : (j : ℕ) → between c.start c.size j ≡ false → f'.at j ≡ f.at j

next_byte : (i k : ℕ) → i + 1 + k ≡ i + suc k
next_byte i k = omega arith

bytes_from-shift :
    (f g : ℕ → ℕ) (n i j : ℕ)
    → ((k : ℕ) → k < n → f (i + k) ≡ g (j + k))
    → bytes_from f n i ≡ bytes_from g n j
unfolding bytes_from
bytes_from-shift f g zero i j h = refl
bytes_from-shift f g (suc n) i j h =
    let first : f i ≡ g j = ap f (omega arith) ∙ h 0 (omega arith) ∙ ap g (omega arith) in
    rw first (
      ap (λ l. g j ∷ l)
        (bytes_from-shift f g n (i + 1) (j + 1)
          (λ k lt. ap f (next_byte i k) ∙ h (suc k) (omega arith) ∙ ap g (sym (next_byte j k)))))

bytes_from-get_or :
    (f : ℕ → ℕ) (b : List ℕ) (i : ℕ)
    → ((k : ℕ) → k < length b → f (i + k) ≡ get_or 0 b k)
    → bytes_from f (length b) i ≡ b
unfolding bytes_from get_or
bytes_from-get_or f [] i h = refl
bytes_from-get_or f (x ∷ b) i h =
    let first : f i ≡ x = ap f (omega arith) ∙ h 0 (omega arith) in
    rw first (
      ap (λ l. x ∷ l)
        (bytes_from-get_or f b (i + 1) (λ k lt. ap f (next_byte i k) ∙ h (suc k) (omega arith))))

there :
    (off k n : ℕ) (inner outer : ℕ → ℕ)
    → k < n
    → (if between off n (off + k) then inner (off + k - off) else outer (off + k)) ≡ inner k
there off k n inner outer lt =
    let within : between off n (off + k) ≡ true = ground arith in
    let back : off + k - off ≡ k = omega arith in rw (within, back) refl

bytes_from-write_at :
    (f : File) (b : List ℕ) (off : ℕ) → bytes_from (write_at f b off).at (length b) off ≡ b
unfolding write_at
bytes_from-write_at f b off =
    bytes_from-get_or (write_at f b off).at b off
      (λ k lt. there off k (length b) (λ j. get_or 0 b j) f.at lt)

bytes_from-copy_range :
    (dst src : File) (from n off : ℕ)
    → bytes_from (copy_range dst src from n off).at n off ≡ bytes_from src.at n from
unfolding copy_range
bytes_from-copy_range dst src from n off =
    bytes_from-shift (copy_range dst src from n off).at src.at n off from
      (λ k lt. there off k n (λ j. src.at (from + j)) dst.at lt)

-- The chunk of the self seed, if it gives one: its data is in the target, outside the range that is
-- written, it is as large as the chunk, and where it is cloned there is a whole block in it.
abbrev pub IsSource : (List ℕ → ChunkId) → SelfSeed → File → ℕ → IndexChunk → Type 0
IsSource sum ss f block c =
    (file : ℕ) (cs : List IndexChunk) (reflink : Bool)
    → get_chunk c.id ss ≡ ok (some (file_segment file cs reflink))
    → (d : IndexChunk) × (cs ≡ d ∷ [])
      × (d.size ≡ c.size)
      × (sum (bytes_from f.at c.size d.start) ≡ c.id)
      × (d.start + c.size ≤ f.size)
      × ((d.start + c.size ≤ c.start) ⊎ (c.start + c.size ≤ d.start))
      × (d.start + c.size + c.start + c.size < 2 ^ 62)
      × (reflink ≡ true → d.start / block + 1 < (d.start + c.size) / block)

module _ {W : Type 0} (compress decompress : Convert) (sum : List ℕ → ChunkId)
    (clone_range : CloneRange) (overlapping : Overlapping) (s : Store W)
    (vouches : (id : ChunkId) (w w' : W) (ch : Chunk) (b : List ℕ)
      → s.get_chunk id w ≡ (ok ch, w')
      → (data_of compress decompress ch).0 ≡ ok b
      → sum b ≡ id) where
  write_at-IsWritten :
      (c : IndexChunk) (f : File) (b : List ℕ)
      → sum b ≡ c.id
      → (c.size == length b) ≡ true
      → IsWritten sum c f (write_at f b c.start)
  unfolding write_at
  write_at-IsWritten c f b sums same =
      let size : length b ≡ c.size = ground (arith, same) in
      record {
        digest =
            subst (λ n. sum (bytes_from (write_at f b c.start).at n c.start) ≡ c.id) size
              (ap sum (bytes_from-write_at f b c.start) ∙ sums);
        others = λ j outside. rw (size, outside) refl;
      }

  from_data_sound :
      (c : IndexChunk) (o : Outcome StoreError (List ℕ)) (f f' : File) (w w' : W)
      → ((b : List ℕ) → o ≡ ok b → sum b ≡ c.id)
      → from_data compress decompress sum clone_range overlapping s c o f w ≡ (ok tt, f', w')
      → IsWritten sum c f f'
  unfolding from_data
  from_data_sound c (ok b) f f' w w' sums h = elim (Bool-cases (c.size == length b)) [
    | inl same ↦
        let e = rw (from_data, same) at h in
        subst (IsWritten sum c f) (ap (λ (x : Written W). x.1) e)
          (write_at-IsWritten c f b (sums b refl) same)
    | inr differ ↦
        let e = rw (from_data, differ) at h in let bad = ap (λ (x : Written W). x.0) e in cc
  ]
  from_data_sound c (err e) f f' w w' sums h = let bad = ap (λ (x : Written W). x.0) h in cc
  from_data_sound c panic f f' w w' sums h = let bad = ap (λ (x : Written W). x.0) h in cc
  from_data_sound c out_of_fuel f f' w w' sums h = let bad = ap (λ (x : Written W). x.0) h in cc

  from_answer_sound :
      (c : IndexChunk) (f f' : File) (w w' : W) (a : Outcome StoreError Chunk × W)
      → s.get_chunk c.id w ≡ a
      → from_answer compress decompress sum clone_range overlapping s c f a ≡ (ok tt, f', w')
      → IsWritten sum c f f'
  unfolding from_answer
  from_answer_sound c f f' w w' (ok ch, v) at h =
      from_data_sound c (data_of compress decompress ch).0 f f' v w'
        (λ b e. vouches c.id w v ch b at e) h
  from_answer_sound c f f' w w' (err e, v) at h = let bad = ap (λ (x : Written W). x.0) h in cc
  from_answer_sound c f f' w w' (panic, v) at h = let bad = ap (λ (x : Written W). x.0) h in cc
  from_answer_sound c f f' w w' (out_of_fuel, v) at h =
      let bad = ap (λ (x : Written W). x.0) h in cc

  module _ (block : ℕ) (clones : Clones clone_range block) (pos : 0 < block) where
    copied-IsWritten :
        (c : IndexChunk) (f : File) (from : ℕ)
        → sum (bytes_from f.at c.size from) ≡ c.id
        → IsWritten sum c f (copy_range f f from c.size c.start)
    unfolding copy_range
    copied-IsWritten c f from sums = record {
      digest = ap sum (bytes_from-copy_range f f from c.size c.start) ∙ sums;
      others = λ j outside. rw outside refl;
    }

    from_self_seed_sound :
        (c : IndexChunk) (ss : SelfSeed) (f f' : File) (w w' : W)
        (o : Outcome ⊥ (Option SeedSegment))
        → get_chunk c.id ss ≡ o
        → IsSource sum ss f block c
        → from_self_seed compress decompress sum clone_range overlapping s c o f block w
          ≡ (ok tt, f', w')
        → IsWritten sum c f f'
    unfolding from_self_seed of_segment size_of_chunks last_end_of
    from_self_seed_sound c ss f f' w w' (ok none) at source h =
        from_answer_sound c f f' w w' _ refl h
    from_self_seed_sound c ss f f' w w' (ok (some (file_segment file cs reflink))) at source h =
        let (d, cs_is, size, sums, fits, apart, small, inside) = source file cs reflink at in
        let whole : size_of_chunks (d ∷ []) ≡ c.size = omega arith in
        let (k, l, total, done) =
          write_file_segment-copy_range clone_range f f d [] reflink c.size c.start block clones pos
            whole inside fits small in
        let free : overlaps (d ∷ []) c ≡ false = ground arith in
        let e = rw (cs_is, free, done) at h in
        subst (IsWritten sum c f) (ap (λ (x : Written W). x.1) e)
          (copied-IsWritten c f d.start sums)
    from_self_seed_sound c ss f f' w w' (ok (some (null_section from to reflink))) at source h =
        let bad = ap (λ (x : Written W). x.0) h in cc
    from_self_seed_sound c ss f f' w w' (err e) at source h = elim e [ ]
    from_self_seed_sound c ss f f' w w' panic at source h =
        let bad = ap (λ (x : Written W). x.0) h in cc
    from_self_seed_sound c ss f f' w w' out_of_fuel at source h =
        let bad = ap (λ (x : Written W). x.0) h in cc

    read_at-bytes_from_eq :
        (f : File) (n off : ℕ) (b : List ℕ) → read_at f n off ≡ some b → bytes_from f.at n off ≡ b
    unfolding read_at
    read_at-bytes_from_eq f n off b h = elim (Bool-cases (n == 0 || leb (off + n) f.size)) [
      | inl enough ↦ some_inj (rw enough at h)
      | inr short ↦ let bad : ◌≡◌ {A = Option (List ℕ)} none (some b) = rw short at h in cc
    ]

    -- The store gives data only with the digest asked for, cloning whole blocks copies them, and
    -- the chunk that the self seed gives, if any, has its data in the target, outside the range
    -- that is written, is as large as the chunk, and has a whole block in it where it is cloned.
    -- If `writeChunk` then returns without an error, the data of the chunk's range in the target
    -- has the digest of the chunk, and all other bytes are as they were.
    pub write_chunk_sound :
        (c : IndexChunk) (ss : SelfSeed) (f f' : File) (is_blank : Bool) (w w' : W)
        → IsSource sum ss f block c
        → write_chunk compress decompress sum clone_range overlapping s c ss f block is_blank w
          ≡ (ok tt, f', w')
        → IsWritten sum c f f'
    unfolding write_chunk
    write_chunk_sound c ss f f' true w w' source h =
        from_self_seed_sound c ss f f' w w' _ refl source h
    write_chunk_sound c ss f f' false w w' source h =
        elim (Option-cases (read_at f c.size c.start)) [
          | inl short ↦
              let e = rw (write_chunk, short) at h in let bad = ap (λ (x : Written W). x.0) e in cc
          | inr (b, got) ↦ elim (Bool-cases (id_equal (sum b) c.id)) [
            | inr differ ↦
                from_self_seed_sound c ss f f' w w' _ refl source
                  (rw (write_chunk, got, differ) at h)
            | inl same ↦
                let e = rw (write_chunk, got, same) at h in
                subst (IsWritten sum c f) (ap (λ (x : Written W). x.1) e) (record {
                  digest =
                      ap sum (read_at-bytes_from_eq f c.size c.start b got)
                      ∙ id_equal→eq (sum b) c.id same;
                  others = λ j outside. refl;
                })
          ]
        ]
