-- ===== src/Sparse/Load.antt =====
-- About `ReadAt` of sparse-file.go over a store that has the chunks.
use desync.Common.{
  ℕ, ◌+◌, ◌≤◌, ◌<◌, ◌≡◌, refl, sym, ap, subst, ◌∙◌, inl, inr, List, [], ◌∷◌, length, get_elem?, All,
  ◌==◌, true, false, Bool-cases, some, some_inj, if◌then◌else◌, arith,
}
use desync.Common.Outcome.{Outcome, ok}
use desync.Chunk.Defs.{Chunk, Convert, StoreError, id_equal, data_of}
use desync.Files.{between, bytes_from, write_at}
use desync.Index.Defs.{IndexChunk}
use desync.Index.Layout.{Tiles}
use desync.Sparse.Bytes.{write_at-bytes_from, size-write_at, Tiles-get_elem?}
use desync.Sparse.Defs.{Bitmap, IsBitmap, Loader, new_loader, fetch, load_chunk, load_each}
use desync.Sparse.Range.{Holds}
use desync.Store.Defs.{Store}
use desync.Stream.Defs.{ChunkId}

-- The loader of a blob: loaded chunks and null chunks are in the file, and no load has failed.
pub record IsLoaded {B : Type 0} (bits : Bitmap B) (blob : ℕ → ℕ) (total : ℕ)
    (chunks : List IndexChunk) (null : ChunkId) (l : Loader B) : Type 0 where
  pub tiles : Tiles 0 chunks total
  pub same_chunks : l.chunks ≡ chunks
  pub same_null : l.null_id ≡ null
  pub size : l.file.size ≡ total
  pub loaded :
      (i : ℕ) (c : IndexChunk) (j : ℕ)
      → Holds chunks i c j
      → bits.get l.done i ≡ true
      → l.file.at j ≡ blob j
  pub nulls :
      (i : ℕ) (c : IndexChunk) (j : ℕ)
      → Holds chunks i c j
      → id_equal c.id null ≡ true
      → l.file.at j ≡ blob j
  pub once : (i : ℕ) → l.once i ≡ true → bits.get l.done i ≡ true

-- A store that has the chunks of a blob, except for null chunks.
abbrev pub Serves :
    {W : Type 0} → Convert → Convert → Store W → (ℕ → ℕ) → List IndexChunk → ChunkId → Type 0
Serves {W} compress decompress s blob chunks null =
    (i : ℕ) (c : IndexChunk) (w : W)
    → get_elem? chunks i ≡ some c
    → id_equal c.id null ≡ false
    → (ch : Chunk) × (w' : W) × (s.get_chunk c.id w ≡ (ok ch, w'))
      × ((data_of compress decompress ch).0 ≡ ok (bytes_from blob c.size c.start))

within :
    (d : IndexChunk) (j : ℕ) → d.start ≤ j → j < d.start + d.size → between d.start d.size j ≡ true
within d j lo hi = ground arith

module _ {B W : Type 0} (bits : Bitmap B) (compress decompress : Convert) (s : Store W)
    (blob : ℕ → ℕ) (total : ℕ) (chunks : List IndexChunk) (null : ChunkId) (law : IsBitmap bits)
    (serves : Serves compress decompress s blob chunks null) where
  -- A step that loads, and keeps what is loaded.
  abbrev pub Loads :
      Loader B → Outcome StoreError (Unit {0}) × Loader B × W → (Loader B → Type 0) → Type 0
  Loads l o P =
      (l' : Loader B) × (w' : W) × (o ≡ (ok tt, l', w'))
      × IsLoaded bits blob total chunks null l'
      × ((k : ℕ) → bits.get l.done k ≡ true → bits.get l'.done k ≡ true)
      × P l'

  abbrev pub IsNeeded : ℕ → Type 0
  IsNeeded i = (c : IndexChunk) × (get_elem? chunks i ≡ some c) × (id_equal c.id null ≡ false)

  -- The loader behind a chunk that was written.
  abbrev filled : ℕ → IndexChunk → Loader B → Loader B
  filled i c l = record l {
    once = λ j. if i == j then true else l.once j;
    file = write_at l.file (bytes_from blob c.size c.start) c.start;
    done = bits.set l.done i;
  }

  filled-IsLoaded :
      (i : ℕ) (c : IndexChunk) (l : Loader B)
      → get_elem? chunks i ≡ some c
      → IsLoaded bits blob total chunks null l
      → IsLoaded bits blob total chunks null (filled i c l)
  filled-IsLoaded i c l at h = record {
    tiles = h.tiles;
    same_chunks = h.same_chunks;
    same_null = h.same_null;
    size =
        size-write_at l.file blob c.size c.start
          (omega (arith, h.size, Tiles-get_elem? 0 total chunks i c h.tiles at))
        ∙ h.size;
    loaded = λ k d j holds done. elim (Bool-cases (i == k)) [
      | inl same ↦
          let i_is : i ≡ k = ground (arith, same) in
          let d_is : c ≡ d = some_inj (sym at ∙ ap (get_elem? chunks) i_is ∙ holds.0) in
          write_at-bytes_from l.file blob c.size c.start j (
            inl (
              subst (λ (x : IndexChunk). between x.start x.size j ≡ true) (sym d_is)
                (within d j holds.1 holds.2)))
      | inr differ ↦
          write_at-bytes_from l.file blob c.size c.start j
            (inr (h.loaded k d j holds (law.set_sound l.done i k done differ)))
    ];
    nulls = λ k d j holds isnull.
        write_at-bytes_from l.file blob c.size c.start j (inr (h.nulls k d j holds isnull));
    once = λ k used_up. elim (Bool-cases (i == k)) [
      | inl same ↦
          let i_is : i ≡ k = ground (arith, same) in
          subst (λ m. bits.get (bits.set l.done i) m ≡ true) i_is (law.set_same l.done i)
      | inr differ ↦ law.set_keeps l.done i k (h.once k (rw differ at used_up))
    ];
  }

  load_chunk-Loads :
      (i : ℕ) (l : Loader B) (w : W)
      → IsLoaded bits blob total chunks null l
      → IsNeeded i
      → Loads l (load_chunk bits compress decompress s i l w) (λ l'. bits.get l'.done i ≡ true)
  unfolding load_chunk fetch
  load_chunk-Loads i l w h (c, at, real) =
      let found : get_elem? l.chunks i ≡ some c = rw h.same_chunks at in
      elim (Bool-cases (l.once i)) [
        | inl again ↦ (l, w, rw (load_chunk, found, again) refl, h, λ k done. done, h.once i again)
        | inr fresh ↦
            let (ch, w', got, bytes) = serves i c w at real in
            (
              filled i c l,
              w',
              rw (load_chunk, found, fresh, fetch, got, bytes) (rw got refl),
              filled-IsLoaded i c l at h,
              λ k done. law.set_keeps l.done i k done,
              law.set_same l.done i,
            )
      ]

  pub load_each-Loads :
      (is : List ℕ) (l : Loader B) (w : W)
      → IsLoaded bits blob total chunks null l
      → All IsNeeded is
      → Loads l
          (load_each bits compress decompress s is l w)
          (λ l'. All (λ (i : ℕ). bits.get l'.done i ≡ true) is)
  unfolding load_each
  load_each-Loads [] l w h every = (l, w, refl, h, λ k done. done, tt)
  load_each-Loads (i ∷ is) l w h (real, every) =
      let (l1, w1, first, h1, keeps1, here) = load_chunk-Loads i l w h real in
      let (l2, w2, rest, h2, keeps2, there) = load_each-Loads is l1 w1 h1 every in
      (
        l2,
        w2,
        rw (load_each, first) (rw first rest),
        h2,
        λ k done. keeps2 k (keeps1 k done),
        (keeps2 i here, there),
      )

-- A new loader over a file that is truncated to the size of the blob.
pub new_loader-IsLoaded :
    {B : Type 0} (bits : Bitmap B) (blob : ℕ → ℕ) (total : ℕ) (chunks : List IndexChunk)
    (null : ChunkId)
    → IsBitmap bits
    → Tiles 0 chunks total
    → ((i : ℕ) (c : IndexChunk) (j : ℕ)
        → Holds chunks i c j
        → id_equal c.id null ≡ true
        → blob j ≡ 0)
    → IsLoaded bits blob total chunks null
        (new_loader bits chunks null (record { size = total; at = λ j. 0 }))
unfolding new_loader
new_loader-IsLoaded bits blob total chunks null law tiles zeroes = record {
  tiles = tiles;
  same_chunks = refl;
  same_null = refl;
  size = refl;
  loaded = λ i c j holds done. cc (done, law.new_lem (length chunks) i);
  nulls = λ i c j holds isnull. sym (zeroes i c j holds isnull);
  once = λ i used_up. cc;
}
