-- ===== src/Sparse/Defs.antt =====
-- The loader of sparse-file.go, and `ReadAt` of a handle.
--
-- The bitmap is a package of its own, and a parameter. `once` says of which chunks the `sync.Once` is
-- used up. Opening the sparse file does not fail, and one caller reads at a time.
use desync.Common.{
  ℕ, zero, suc, ◌+◌, ◌-◌, ◌≡◌, List, [], ◌∷◌, length, drop, get_elem?, ltb, leb, ◌==◌, Bool, true,
  false, none, some, if◌then◌else◌,
}
use desync.Common.Outcome.{Outcome, ok, err, panic, out_of_fuel, ◌>>=◌}
use desync.Chunk.Defs.{Convert, StoreError, id_equal, data_of}
use desync.Files.{File, bytes_from, write_at}
use desync.Index.Defs.{IndexChunk}
use desync.ReadSeeker.Defs.{search_chunk}
use desync.Store.Defs.{Store}
use desync.Stream.Defs.{ChunkId}

pub record Bitmap (B : Type 0) : Type 0 where
  pub new : ℕ → B
  pub get : B → ℕ → Bool
  pub set : B → ℕ → B

-- What its documentation promises.
pub record IsBitmap {B : Type 0} (bits : Bitmap B) : Type 0 where
  pub new_lem : (n i : ℕ) → bits.get (bits.new n) i ≡ false
  pub set_same : (b : B) (i : ℕ) → bits.get (bits.set b i) i ≡ true
  pub set_keeps : (b : B) (i j : ℕ) → bits.get b j ≡ true → bits.get (bits.set b i) j ≡ true
  pub set_sound :
      (b : B) (i j : ℕ) → bits.get (bits.set b i) j ≡ true → (i == j) ≡ false → bits.get b j ≡ true

pub record Loader (B : Type 0) : Type 0 where
  pub chunks : List IndexChunk
  pub null_id : ChunkId
  pub done : B
  pub once : ℕ → Bool
  pub file : File

unfoldable pub new_loader : {B : Type 0} → Bitmap B → List IndexChunk → ChunkId → File → Loader B
new_loader bits chunks null file = record {
  chunks = chunks;
  null_id = null;
  done = bits.new (length chunks);
  once = λ i. false;
  file = file;
}

-- The loop for the last chunk: how many chunks start before `end` or there.
unfoldable pub run_to : ℕ → List IndexChunk → ℕ
run_to end [] = 0
run_to end (c ∷ chunks) = let more = run_to end chunks in if ltb end c.start then 0 else suc more

-- The first and the last chunk. Without chunks both are 0 here, and -1 in the code for a range that
-- is not empty: there is no such chunk either way.
unfoldable pub index_range : List IndexChunk → ℕ → ℕ → ℕ × ℕ
index_range chunks start n =
    let first : ℕ = search_chunk start chunks in
    if ltb n 1
    then (first, first)
    else if leb (length chunks) first
    then (length chunks - 1, length chunks - 1)
    else (first, first + run_to (start + n - 1) (drop (suc first) chunks))

module _ {B : Type 0} (bits : Bitmap B) where
  -- The chunks among the next `n` that are neither loaded nor null chunks.
  unfoldable pub needed : ℕ → ℕ → Loader B → Outcome StoreError (List ℕ)
  needed zero i l = ok []
  needed (suc n) i l =
      let rest = needed n (i + 1) l in
      elim (get_elem? l.chunks i) [
        | none ↦ panic
        | some c ↦
            if bits.get l.done i
            then rest
            else if id_equal c.id l.null_id
            then rest
            else rest >>= (λ is. ok (i ∷ is))
      ]

  module _ {W : Type 0} (compress decompress : Convert) (s : Store W) where
    -- The function that `sync.Once` runs: what is left of the loader is returned with the error.
    unfoldable pub fetch :
        ℕ → IndexChunk → Loader B → W → Outcome StoreError (Unit {0}) × Loader B × W
    fetch i c l w =
        let (o, w') = s.get_chunk c.id w in
        elim o [
          | ok ch ↦ elim (data_of compress decompress ch).0 [
            | ok b ↦
                (ok tt, record l { file = write_at l.file b c.start; done = bits.set l.done i }, w')
            | err e ↦ (err e, l, w')
            | panic ↦ (panic, l, w')
            | out_of_fuel ↦ (out_of_fuel, l, w')
          ]
          | err e ↦ (err e, l, w')
          | panic ↦ (panic, l, w')
          | out_of_fuel ↦ (out_of_fuel, l, w')
        ]

    abbrev pub used : ℕ → Loader B → Loader B
    used i l = record l { once = λ j. if i == j then true else l.once j }

    unfoldable pub load_chunk : ℕ → Loader B → W → Outcome StoreError (Unit {0}) × Loader B × W
    load_chunk i l w = elim (get_elem? l.chunks i) [
      | none ↦ (panic, l, w)
      | some c ↦ if l.once i then (ok tt, l, w) else fetch i c (used i l) w
    ]

    -- The first error ends the loop.
    unfoldable pub load_each : List ℕ → Loader B → W → Outcome StoreError (Unit {0}) × Loader B × W
    load_each [] l w = (ok tt, l, w)
    load_each (i ∷ is) l w =
        let (o, l', w') = load_chunk i l w in
        elim o [
          | ok u ↦ load_each is l' w'
          | err e ↦ (err e, l', w')
          | panic ↦ (panic, l', w')
          | out_of_fuel ↦ (out_of_fuel, l', w')
        ]

    unfoldable pub load_range : ℕ → ℕ → Loader B → W → Outcome StoreError (Unit {0}) × Loader B × W
    load_range start n l w =
        let (first, last) = index_range l.chunks start n in
        elim (needed (last + 1 - first) first l) [
          | ok is ↦ load_each is l w
          | err e ↦ (err e, l, w)
          | panic ↦ (panic, l, w)
          | out_of_fuel ↦ (out_of_fuel, l, w)
        ]

    -- The bytes that are read; fewer than asked for come with io.EOF.
    unfoldable pub read_at : ℕ → ℕ → Loader B → W → Outcome StoreError (List ℕ) × Loader B × W
    read_at n start l w =
        let (o, l', w') = load_range start n l w in
        (
          o >>= (λ u. ok (
              bytes_from l'.file.at
                (if ltb (l'.file.size - start) n then l'.file.size - start else n) start)),
          l',
          w',
        )
