-- ===== src/Sparse/Read.antt =====
-- About `ReadAt` of sparse-file.go: the bytes that are read.
use desync.Common.{
  ℕ, zero, suc, ◌+◌, ◌-◌, ◌≤◌, ◌<◌, ◌≡◌, refl, sym, ap, subst, ◌∙◌, ◌⊎◌, inl, inr, List, [], ◌∷◌,
  length, get_elem?, All, ltb, ◌==◌, true, false, Bool-cases, some, some_inj, arith, IsAmong,
  All-IsAmong,
}
use desync.Common.Outcome.{ok}
use desync.Chunk.Defs.{Convert, id_equal}
use desync.Files.{bytes_from}
use desync.Index.Defs.{IndexChunk}
use desync.Sparse.Bytes.{bytes_from-eq}
use desync.Sparse.Defs.{Bitmap, IsBitmap, Loader, index_range, needed, load_range, read_at}
use desync.Sparse.Range.{Holds, index_range-Holds, index_range-lt}
use desync.Store.Defs.{Store}
use desync.Stream.Defs.{ChunkId}
use desync.Sparse.Load.{IsLoaded, Serves, Loads, IsNeeded, load_each-Loads}

get_elem?-some :
    {A : Type 0} (xs : List A) (i : ℕ) → i < length xs → (x : A) × (get_elem? xs i ≡ some x)
get_elem?-some [] i h = let bad : ⊥ = omega arith in elim bad [ ]
get_elem?-some (x ∷ xs) zero h = (x, refl)
get_elem?-some (x ∷ xs) (suc i) h = get_elem?-some xs i (omega arith)

module _ {B W : Type 0} (bits : Bitmap B) (compress decompress : Convert) (s : Store W)
    (blob : ℕ → ℕ) (total : ℕ) (chunks : List IndexChunk) (null : ChunkId) (law : IsBitmap bits)
    (serves : Serves compress decompress s blob chunks null) where
  -- What is known of a chunk before the loads: it is there already, or it is to be loaded.
  abbrev IsCovered : Loader B → List ℕ → ℕ → Type 0
  IsCovered l is k =
      (bits.get l.done k ≡ true)
      ⊎ ((c : IndexChunk) → get_elem? chunks k ≡ some c → id_equal c.id null ≡ true)
      ⊎ IsAmong k is

  IsCovered-more :
      (l : Loader B) (i : ℕ) (is : List ℕ) (k : ℕ) → IsCovered l is k → IsCovered l (i ∷ is) k
  IsCovered-more l i is k (inl done) = inl done
  IsCovered-more l i is k (inr (inl isnull)) = inr (inl isnull)
  IsCovered-more l i is k (inr (inr there)) = inr (inr (inr there))

  IsCovered-next :
      (l : Loader B) (is : List ℕ) (i n : ℕ)
      → IsCovered l is i
      → ((k : ℕ) → i + 1 ≤ k → k < i + 1 + n → IsCovered l is k)
      → (k : ℕ) → i ≤ k
      → k < i + suc n
      → IsCovered l is k
  IsCovered-next l is i n here behind k lo hi = elim (Bool-cases (i == k)) [
    | inl same ↦ subst (IsCovered l is) (ground (arith, same)) here
    | inr differ ↦ behind k (ground (arith, differ)) (omega arith)
  ]

  needed-IsCovered :
      (n i : ℕ) (l : Loader B)
      → l.chunks ≡ chunks
      → l.null_id ≡ null
      → i + n ≤ length chunks
      → (is : List ℕ) × (needed bits n i l ≡ ok is)
        × All (IsNeeded bits compress decompress s blob total chunks null law serves) is
        × ((k : ℕ) → i ≤ k → k < i + n → IsCovered l is k)
  unfolding needed
  needed-IsCovered zero i l hc hn fits =
      ([], refl, tt, λ k lo hi. let bad : ⊥ = omega arith in elim bad [ ])
  needed-IsCovered (suc n) i l hc hn fits =
      let (is, rest, every, covered) = needed-IsCovered n (i + 1) l hc hn (omega arith) in
      let (c, at) = get_elem?-some chunks i (omega arith) in
      let found : get_elem? l.chunks i ≡ some c = rw hc at in
      elim (Bool-cases (bits.get l.done i)) [
        | inl done ↦
            (is, rw (needed, found, done) rest, every, IsCovered-next l is i n (inl done) covered)
        | inr missing ↦ elim (Bool-cases (id_equal c.id null)) [
          | inl isnull ↦
              let isnull' : id_equal c.id l.null_id ≡ true = rw hn isnull in
              (
                is,
                rw (needed, found, missing, isnull') rest,
                every,
                IsCovered-next l is i n
                    (inr (
                      inl (λ d there.
                        subst (λ (x : IndexChunk). id_equal x.id null ≡ true)
                          (some_inj (sym at ∙ there)) isnull)))
                    covered,
              )
          | inr real ↦
              let real' : id_equal c.id l.null_id ≡ false = rw hn real in
              (
                i ∷ is,
                rw (needed, found, missing, real') (rw rest refl),
                ((c, at, real), every),
                IsCovered-next l (i ∷ is) i n (inr (inr (inl refl)))
                    (λ k lo hi. IsCovered-more l i is k (covered k lo hi)),
              )
        ]
      ]

  -- The bytes of a covered chunk are in the file when what was needed is loaded.
  IsCovered-bytes :
      (l l' : Loader B) (is : List ℕ) (k : ℕ) (c : IndexChunk) (j : ℕ)
      → Holds chunks k c j
      → IsCovered l is k
      → IsLoaded bits blob total chunks null l'
      → ((m : ℕ) → bits.get l.done m ≡ true → bits.get l'.done m ≡ true)
      → All (λ (i : ℕ). bits.get l'.done i ≡ true) is
      → l'.file.at j ≡ blob j
  IsCovered-bytes l l' is k c j holds (inl done) h keeps every = h.loaded k c j holds (keeps k done)
  IsCovered-bytes l l' is k c j holds (inr (inl isnull)) h keeps every =
      h.nulls k c j holds (isnull c holds.0)
  IsCovered-bytes l l' is k c j holds (inr (inr there)) h keeps every =
      h.loaded k c j holds (All-IsAmong (λ i. bits.get l'.done i ≡ true) is k every there)

  load_range-Loads :
      (from n : ℕ) (l : Loader B) (w : W)
      → IsLoaded bits blob total chunks null l
      → 0 < n
      → from < total
      → Loads bits compress decompress s blob total chunks null law serves l
          (load_range bits compress decompress s from n l w)
          (λ l'. (j : ℕ) → from ≤ j → j < from + n → j < total → l'.file.at j ≡ blob j)
  unfolding load_range
  load_range-Loads from n l w h pos inside =
      let range : index_range l.chunks from n ≡ index_range chunks from n =
        ap (λ cs. index_range cs from n) h.same_chunks in
      let (order, below) = index_range-lt total from n chunks h.tiles pos inside in
      let (is, found, every, covered) =
        needed-IsCovered ((index_range chunks from n).1 + 1 - (index_range chunks from n).0)
          (index_range chunks from n).0 l h.same_chunks h.same_null (omega arith) in
      let (l', w', done, h', keeps, all) =
        load_each-Loads bits compress decompress s blob total chunks null law serves is l w h
          every in
      (
        l',
        w',
        rw (load_range, range, found) done,
        h',
        keeps,
        λ j lo hi end.
            let (k, c, holds, up, down) =
              index_range-Holds total from n j chunks h.tiles lo hi end in
            IsCovered-bytes l l' is k c j holds (covered k up (omega arith)) h' keeps all,
      )

  -- The bitmap does what it promises, and the store has the chunks of the blob, except for null
  -- chunks. In a loader that is in order, where what is loaded and the null chunks are in the
  -- file and no load has failed, a read of at least one byte within the blob gives the bytes of
  -- the blob, and leaves a loader in order.
  pub read_at-bytes_from :
      (from n : ℕ) (l : Loader B) (w : W)
      → IsLoaded bits blob total chunks null l
      → 0 < n
      → from + n ≤ total
      → (l' : Loader B) × (w' : W) × (read_at bits compress decompress s n from l w
          ≡ (ok (bytes_from blob n from), l', w'))
        × IsLoaded bits blob total chunks null l'
  unfolding read_at
  read_at-bytes_from from n l w h pos inside =
      let (l', w', done, h', keeps, all) = load_range-Loads from n l w h pos (omega arith) in
      let whole : ltb (l'.file.size - from) n ≡ false = ground (arith, h'.size) in
      (
        l',
        w',
        rw (read_at, done)
            (rw (whole, bytes_from-eq l'.file.at blob n from (λ j lo hi. all j lo hi (omega arith)))
              refl),
        h',
      )
