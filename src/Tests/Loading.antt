-- ===== src/Tests/Loading.antt =====
-- A sparse file over a blob of five bytes: a chunk with data, and a null chunk.
use desync.Common.{
  ℕ, zero, suc, ◌≡◌, refl, ap, subst, List, [], ◌∷◌, replicate, ltb, ◌==◌, Bool, true, false,
  some_inj, if◌then◌else◌, arith,
}
use desync.Common.Outcome.{ok, err}
use desync.Chunk.Defs.{chunk_missing, new_chunk, data_of, id_equal}
use desync.Files.{bytes_from}
use desync.Index.Defs.{IndexChunk}
use desync.Sparse.Defs.{Bitmap, IsBitmap, Loader, new_loader, load_chunk, read_at}
use desync.Sparse.Failure.{load_chunk_lost}
use desync.Sparse.Load.{IsLoaded, Serves, new_loader-IsLoaded}
use desync.Sparse.Range.{Holds}
use desync.Sparse.Read.{read_at-bytes_from}
use desync.Store.Defs.{Store}
use desync.Stream.Defs.{ChunkId}
use desync.Tests.Chunks.{pack, unpack}

abbrev bits : Bitmap (ℕ → Bool)
bits = record { new = λ n i. false; get = λ b i. b i; set = λ b i j. if i == j then true else b j }

bits-IsBitmap : IsBitmap bits
bits-IsBitmap = record {
  new_lem = λ n i. refl;
  set_same = λ b i. ground arith;
  set_keeps = λ b i j h. ground arith;
  set_sound = λ b i j h differ. ground arith;
}

abbrev zeroes_id : ChunkId
zeroes_id = replicate 32 0

abbrev sevens : IndexChunk
sevens = record { id = replicate 32 7; start = 0; size = 3 }

abbrev hole : IndexChunk
hole = record { id = zeroes_id; start = 3; size = 2 }

abbrev both_chunks : List IndexChunk
both_chunks = sevens ∷ hole ∷ []

abbrev blob : ℕ → ℕ
blob j = if ltb j 3 then 7 else 0

abbrev sevens_store : Store (Unit {0})
sevens_store = record {
  get_chunk = λ id w. (ok (new_chunk (7 ∷ 7 ∷ 7 ∷ [])), w);
  has_chunk = λ id w. (ok true, w);
  close = λ w. (ok tt, w);
}

abbrev lost_store : Store (Unit {0})
lost_store = record sevens_store { get_chunk = λ id w. (err (chunk_missing id), w) }

first_chunk : (data_of pack unpack (new_chunk (7 ∷ 7 ∷ 7 ∷ []))).0 ≡ ok (bytes_from blob 3 0)
unfolding data_of new_chunk bytes_from
first_chunk = refl

hole_id : id_equal zeroes_id zeroes_id ≡ true
unfolding id_equal
hole_id = refl

sevens_store-Serves : Serves pack unpack sevens_store blob both_chunks zeroes_id
sevens_store-Serves zero c w at real = (
  new_chunk (7 ∷ 7 ∷ 7 ∷ []),
  w,
  refl,
  subst
      (λ (x : IndexChunk).
        (data_of pack unpack (new_chunk (7 ∷ 7 ∷ 7 ∷ []))).0 ≡ ok (bytes_from blob x.size x.start))
      (some_inj at) first_chunk,
)
sevens_store-Serves (suc zero) c w at real =
    let same : id_equal c.id zeroes_id ≡ true =
      subst (λ (x : IndexChunk). id_equal x.id zeroes_id ≡ true) (some_inj at) hole_id in
    cc
sevens_store-Serves (suc (suc i)) c w at real = cc

sevens_not_null : id_equal (replicate 32 7) zeroes_id ≡ false
unfolding id_equal
sevens_not_null = refl

hole_zero :
    (i : ℕ) (c : IndexChunk) (j : ℕ)
    → Holds both_chunks i c j
    → id_equal c.id zeroes_id ≡ true
    → blob j ≡ 0
hole_zero zero c j (at, lo, hi) isnull =
    let other : id_equal c.id zeroes_id ≡ false =
      subst (λ (x : IndexChunk). id_equal x.id zeroes_id ≡ false) (some_inj at) sevens_not_null in
    cc
hole_zero (suc zero) c j (at, lo, hi) isnull =
    let from : 3 ≡ c.start = ap (λ (x : IndexChunk). x.start) (some_inj at) in ground arith
hole_zero (suc (suc i)) c j (at, lo, hi) isnull = cc

abbrev fresh : Loader (ℕ → Bool)
fresh = record {
  chunks = both_chunks;
  null_id = zeroes_id;
  done = λ i. false;
  once = λ i. false;
  file = record { size = 5; at = λ j. 0 };
}

fresh-IsLoaded : IsLoaded bits blob 5 both_chunks zeroes_id fresh
unfolding new_loader
fresh-IsLoaded =
    new_loader-IsLoaded bits blob 5 both_chunks zeroes_id bits-IsBitmap (refl, (refl, refl))
      hole_zero

read_at-bytes_from_example :
    (l' : Loader (ℕ → Bool)) × (w' : Unit {0}) × (read_at bits pack unpack sevens_store 3 1 fresh tt
      ≡ (ok (bytes_from blob 3 1), l', w'))
    × IsLoaded bits blob 5 both_chunks zeroes_id l'
read_at-bytes_from_example =
    read_at-bytes_from bits pack unpack sevens_store blob 5 both_chunks zeroes_id bits-IsBitmap
      sevens_store-Serves 1 3 fresh tt fresh-IsLoaded (omega arith) (omega arith)

load_chunk_lost_example :
    (l' : Loader (ℕ → Bool)) × (load_chunk bits pack unpack lost_store 0 fresh tt
      ≡ (err (chunk_missing (replicate 32 7)), l', tt))
    × (load_chunk bits pack unpack sevens_store 0 l' tt ≡ (ok tt, l', tt))
    × (bits.get l'.done 0 ≡ false)
    × (l'.file ≡ fresh.file)
load_chunk_lost_example =
    load_chunk_lost bits pack unpack lost_store sevens_store fresh 0 sevens
      (chunk_missing (replicate 32 7)) tt tt tt refl refl refl refl
