-- ===== src/Tests/Stores.antt =====
-- Stores over a list of chunks: one that remembers what is stored, one that always fails, an empty
-- one, and one that refuses to store.
use desync.Common.{
  All, Bool-cases, inl, inr, ℕ, zero, suc, ◌≡◌, refl, sym, ◌∙◌, ap, subst, replicate, ◌↔◌, List, [],
  ◌∷◌, get_elem?, none, some, true, false, if◌then◌else◌, arith,
}
use desync.Common.Outcome.{Outcome, ok, err, panic, out_of_fuel}
use desync.Chunk.Defs.{
  Chunk, compressor, StoreError, chunk_missing, chunk_invalid, other, id_equal, new_chunk,
  new_chunk_from_storage, id_of, data_of, storage_of, from_storage, to_storage, converters_equal,
}
use desync.Copy.{copy_chunks, copy_chunk, after_has_chunk, store_copy}
use desync.Copy.Present.{Promises, copy_chunks-Has}
use desync.Store.Cache
use desync.Store.Cache.Hits.{Remembers, get_chunk-get_chunk, get_chunk_repaired}
use desync.Store.Defs.{Store, WriteStore, Effect, is_chunk_missing}
use desync.Store.Failover
use desync.Store.Failover.{FailoverGroup}
use desync.Store.Failover.Outage.{IsDown, IsFailure, get_chunk_all_fail}
use desync.Store.Failover.Rotation.{IsAvailable, IsReturn, IsAnswerOf, get_chunk-IsSettled}
use desync.Store.Router
use desync.Store.Router.Order.{AllMiss, get_chunk_missing_iff}
use desync.Store.Storage.{store_chunk, is_marked}
use desync.Store.Storage.Marks.{store_chunk-store_chunk, store_chunk_lost}
use desync.Stream.Defs.{ChunkId}
use desync.Tests.Chunks.{pack, unpack, sum_length}

abbrev Shelf : Type 0
Shelf = List Chunk

abbrev named : Chunk → ChunkId
named c = c.id

-- The last chunk that was stored under the id.
abbrev find : ChunkId → Shelf → Outcome StoreError Chunk
find id [] = err (chunk_missing id)
find id (c ∷ shelf) = let rest = find id shelf in if id_equal (named c) id then ok c else rest

abbrev nothing_to_close : Effect Shelf (Unit {0})
nothing_to_close w = (ok tt, w)

abbrev local : WriteStore Shelf
local = record {
  store = record {
    get_chunk = λ id w. (find id w, w);
    has_chunk = λ id w. (ok false, w);
    close = nothing_to_close;
  };
  store_chunk = λ c w. (ok tt, c ∷ w);
}

abbrev empty : Store Shelf
empty = record {
  get_chunk = λ id w. (err (chunk_missing id), w);
  has_chunk = λ id w. (ok false, w);
  close = nothing_to_close;
}

abbrev broken : Store Shelf
broken = record {
  get_chunk = λ id w. (err (other 5), w);
  has_chunk = λ id w. (err (other 5), w);
  close = nothing_to_close;
}

abbrev apple : Chunk
apple = record (new_chunk (1 ∷ [])) { id = 3 ∷ [] }

-- A store with the chunk `apple` under every id.
abbrev full : Store Shelf
full = record {
  get_chunk = λ id w. (ok apple, w);
  has_chunk = λ id w. (ok true, w);
  close = nothing_to_close;
}

abbrev damaged : WriteStore Shelf
damaged = record {
  store = record {
    get_chunk = λ id w. (err (chunk_invalid id (4 ∷ [])), w);
    has_chunk = λ id w. (err (other 6), w);
    close = nothing_to_close;
  };
  store_chunk = λ c w. (ok tt, c ∷ w);
}

abbrev apple_id : ChunkId
apple_id = 3 ∷ []

get_chunk_missing_iff_example :
    (Router.get_chunk (record { stores = empty ∷ empty ∷ [] }) (3 ∷ []) []
      ≡ (err (chunk_missing (3 ∷ [])), []))
    ↔ (AllMiss (empty ∷ empty ∷ []) (3 ∷ []) [] [] × (apple_id ≡ apple_id))
get_chunk_missing_iff_example = get_chunk_missing_iff (empty ∷ empty ∷ []) (3 ∷ []) (3 ∷ []) [] []

-- A store that keeps bytes under ids, in plain format, and verifies what it reads.
abbrev Files : Type 0
Files = List (ChunkId × List ℕ)

abbrev read : ChunkId → Files → Outcome StoreError Chunk
read id [] = err (chunk_missing id)
read id ((j, b) ∷ files) =
    let rest = read id files in
    if id_equal j id then new_chunk_from_storage pack unpack sum_length id b [] false else rest

abbrev write : ChunkId → Outcome StoreError (List ℕ) → Effect Files (Unit {0})
write id (ok b) w = (ok tt, (id, b) ∷ w)
write id (err e) w = (err e, w)
write id panic w = (panic, w)
write id out_of_fuel w = (out_of_fuel, w)

abbrev on_disk : WriteStore Files
on_disk = record {
  store = record {
    get_chunk = λ id w. (read id w, w);
    has_chunk = λ id w. (ok false, w);
    close = λ w. (ok tt, w);
  };
  store_chunk = λ c w. write (id_of pack unpack sum_length c).0 (storage_of pack unpack [] c).0 w;
}

-- A chunk in compressed format, and as it is read back.
abbrev pear : Chunk
pear = record {
  plain = 7 ∷ 8 ∷ [];
  stored = 1 ∷ 7 ∷ 8 ∷ [];
  converters = compressor ∷ [];
  id = replicate 32 2;
  id_calculated = true;
}

abbrev pear_again : Chunk
pear_again = record pear { stored = 7 ∷ 8 ∷ []; converters = [] }

abbrev pear_id : ChunkId
pear_id = replicate 32 2

abbrev pear_files : Files
pear_files = (pear_id, 7 ∷ 8 ∷ []) ∷ []

abbrev found_pear : Files → Outcome StoreError Chunk × Files
found_pear w = (ok pear_again, w)

pear-read :
    (w : Files)
    → on_disk.get_chunk pear_id ((pear_id, 7 ∷ 8 ∷ []) ∷ w) ≡ found_pear ((pear_id, 7 ∷ 8 ∷ []) ∷ w)
unfolding new_chunk_from_storage id_of data_of from_storage id_equal
pear-read w = refl

pear-written : (w : Files) → on_disk.store_chunk pear w ≡ (ok tt, (pear_id, 7 ∷ 8 ∷ []) ∷ w)
unfolding id_of storage_of data_of to_storage converters_equal
pear-written w = refl

on_disk-Remembers : Remembers pack unpack pear_id pear on_disk
unfolding data_of
on_disk-Remembers = record {
  found = λ w w' h.
      let e : (pear_id, 7 ∷ 8 ∷ []) ∷ w ≡ w' =
        ap (λ (x : Outcome StoreError (Unit {0}) × Files). x.1) (sym (pear-written w) ∙ h) in
      (pear_again, subst (λ v. on_disk.get_chunk pear_id v ≡ found_pear v) e (pear-read w), refl);
}

abbrev orchard_of_pears : Store Files
orchard_of_pears = record {
  get_chunk = λ id w. (ok pear, w);
  has_chunk = λ id w. (ok true, w);
  close = λ w. (ok tt, w);
}

abbrev no_orchard : Store Files
no_orchard = record {
  get_chunk = λ id w. (err (other 5), w);
  has_chunk = λ id w. (err (other 5), w);
  close = λ w. (ok tt, w);
}

missing-is : is_chunk_missing (chunk_missing pear_id) ≡ true
unfolding is_chunk_missing
missing-is = refl

first_request :
    Cache.get_chunk (record { s = orchard_of_pears; l = on_disk }) pear_id []
    ≡ (ok pear, pear_files)
unfolding Cache.get_chunk is_chunk_missing id_of storage_of data_of to_storage converters_equal
first_request = refl

get_chunk-get_chunk_example :
    (c : Chunk) × (Cache.get_chunk (record { s = no_orchard; l = on_disk }) pear_id pear_files
      ≡ (ok c, pear_files))
    × ((data_of pack unpack c).0 ≡ (data_of pack unpack pear).0)
get_chunk-get_chunk_example =
    get_chunk-get_chunk pack unpack on_disk orchard_of_pears no_orchard pear_id
      (chunk_missing pear_id) pear [] [] pear_files on_disk-Remembers refl missing-is refl
      first_request

get_chunk_repaired_example :
    Cache.get_chunk (record { s = full; l = Cache.new_repairable_cache damaged }) (3 ∷ []) []
    ≡ (ok apple, apple ∷ [])
get_chunk_repaired_example =
    get_chunk_repaired full damaged (3 ∷ []) (4 ∷ []) apple [] [] [] (apple ∷ []) refl refl refl

some-path : {s t : Store Shelf} → some s ≡ some t → s ≡ t
some-path {s = s} h = ap (λ o. elim o [ none ↦ s | some x ↦ x ]) h

abbrev group : FailoverGroup Shelf
group = record { stores = broken ∷ full ∷ []; active = 0 }

group-IsReturn :
    (i : ℕ) (t : Store Shelf) (w : Shelf)
    → get_elem? group.stores i ≡ some t
    → IsReturn (t.get_chunk (3 ∷ []) w).0
group-IsReturn zero t w h = subst (λ s. IsReturn (s.get_chunk (3 ∷ []) w).0) (some-path h) tt
group-IsReturn (suc zero) t w h = subst (λ s. IsReturn (s.get_chunk (3 ∷ []) w).0) (some-path h) tt
group-IsReturn (suc (suc i)) t w h = cc

group-IsAvailable : IsAvailable (3 ∷ []) 1 full group.stores
group-IsAvailable = record {
  in_group = refl;
  in_range = omega arith;
  settles = λ w. tt;
  returns = group-IsReturn;
}

get_chunk-IsSettled_example :
    IsAnswerOf (3 ∷ []) group.stores (Failover.get_chunk group (3 ∷ []) []).0
get_chunk-IsSettled_example =
    get_chunk-IsSettled group (3 ∷ []) 1 full [] group-IsAvailable (omega arith)

-- Every request to it fails, and leaves a mark.
abbrev counting : Store Shelf
counting = record broken { get_chunk = λ id w. (err (other 5), apple ∷ w) }

abbrev dead_group : FailoverGroup Shelf
dead_group = record { stores = counting ∷ counting ∷ []; active = 1 }

dead_group-IsDown : IsDown (3 ∷ []) dead_group.stores
unfolding is_chunk_missing
dead_group-IsDown zero t w h = subst (λ s. IsFailure (s.get_chunk (3 ∷ []) w).0) (some-path h) refl
dead_group-IsDown (suc zero) t w h =
    subst (λ s. IsFailure (s.get_chunk (3 ∷ []) w).0) (some-path h) refl
dead_group-IsDown (suc (suc i)) t w h = cc

get_chunk_all_fail_example :
    IsFailure (Failover.get_chunk dead_group (3 ∷ []) []).0
    × ((Failover.get_chunk dead_group (3 ∷ []) []).1.active ≡ dead_group.active)
    × ((Failover.get_chunk dead_group (3 ∷ []) []).2 ≡ apple ∷ apple ∷ [])
get_chunk_all_fail_example =
    get_chunk_all_fail (3 ∷ []) dead_group [] dead_group-IsDown (omega arith)

no_mark : is_marked (3 ∷ []) [] ≡ false
unfolding is_marked
no_mark = refl

store_chunk-store_chunk_example :
    (store_chunk named local apple [] [] ≡ (ok tt, (3 ∷ []) ∷ [], apple ∷ []))
    × (store_chunk named local apple ((3 ∷ []) ∷ []) [] ≡ (ok tt, (3 ∷ []) ∷ [], []))
store_chunk-store_chunk_example =
    store_chunk-store_chunk named local apple [] [] [] (apple ∷ []) [] no_mark refl refl

store_chunk_lost_example :
    (store_chunk named damaged apple [] [] ≡ (err (other 6), (3 ∷ []) ∷ [], []))
    × (store_chunk named damaged apple ((3 ∷ []) ∷ []) [] ≡ (ok tt, (3 ∷ []) ∷ [], []))
store_chunk_lost_example = store_chunk_lost named damaged apple (other 6) [] [] [] no_mark refl

-- A store with the chunk `apple` under its own id.
abbrev orchard : Store Shelf
orchard = record {
  get_chunk =
      λ id w. if id_equal (named apple) id then (ok apple, w) else (err (chunk_missing id), w);
  has_chunk = λ id w. (ok true, w);
  close = nothing_to_close;
}

abbrev Keeps : ChunkId → Shelf → Type 0
Keeps id w = (c : Chunk) × (find id w ≡ ok c)

Keeps-cons : (j : ChunkId) (c : Chunk) (w : Shelf) → Keeps j w → Keeps j (c ∷ w)
Keeps-cons j c w (d, found) = elim (Bool-cases (id_equal (named c) j)) [
  | inl same ↦ (c, rw same refl)
  | inr differ ↦ (d, rw differ found)
]

orchard_gives :
    (id : ChunkId) (c : Chunk) (w w' : Shelf)
    → orchard.get_chunk id w ≡ (ok c, w')
    → Keeps id (c ∷ w')
orchard_gives id c w w' got = elim (Bool-cases (id_equal (named apple) id)) [
  | inl same ↦
      let e = ap (λ (x : Outcome StoreError Chunk × Shelf). x.0) (rw same at got) in
      let c_is : apple ≡ c = cc in (c, rw (← c_is, same) refl)
  | inr differ ↦ let e = ap (λ (x : Outcome StoreError Chunk × Shelf). x.0) (rw differ at got) in cc
]

orchard_loses_nothing :
    (j id : ChunkId) (w : Shelf) → Keeps j w → Keeps j (orchard.get_chunk id w).1
orchard_loses_nothing j id w h = elim (Bool-cases (id_equal (named apple) id)) [
  | inl same ↦ rw same h
  | inr differ ↦ rw differ h
]

local-Promises : Promises orchard local Keeps
local-Promises = record {
  answers = λ id w h. cc;
  stores = λ id c w w' got done. orchard_gives id c w w' got;
  asking_keeps = λ j id w h. h;
  getting_keeps = orchard_loses_nothing;
  storing_keeps = λ j c w h. Keeps-cons j c w h;
}

copied : copy_chunks orchard local (λ k. false) ((3 ∷ []) ∷ []) [] ≡ (ok tt, apple ∷ [])
unfolding copy_chunks copy_chunk after_has_chunk store_copy id_equal
copied = refl

copy_chunks-Has_example : All (λ (id : ChunkId). Keeps id (apple ∷ [])) ((3 ∷ []) ∷ [])
copy_chunks-Has_example =
    copy_chunks-Has orchard local Keeps local-Promises (λ k. false) ((3 ∷ []) ∷ []) [] (apple ∷ [])
      (λ k. refl) copied
