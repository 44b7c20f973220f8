-- ===== src/Store/Router.antt =====
-- `StoreRouter` of storerouter.go.
pub mod Order
use desync.Common.{List, [], ◌∷◌, Bool, true, false, if◌then◌else◌}
use desync.Common.Outcome.{Outcome, ok, err, panic, out_of_fuel}
use desync.Chunk.Defs.{Chunk, StoreError, chunk_missing, wrapped}
use desync.Store.Defs.{Store, Effect, is_chunk_missing}
use desync.Stream.Defs.{ChunkId}

pub record StoreRouter (W : Type 0) : Type 0 where
  pub stores : List (Store W)

keep_first : Outcome StoreError (Unit {0}) → StoreError → Outcome StoreError (Unit {0})
keep_first (ok u) e = err e
keep_first first e = first

module _ {W : Type 0} where
  pub new_store_router : List (Store W) → StoreRouter W
  new_store_router stores = record { stores = stores }

  -- The loop over the stores; only a missing chunk leads to the next one.
  unfoldable pub get_from : List (Store W) → ChunkId → Effect W Chunk
  get_from [] id w = (err (chunk_missing id), w)
  get_from (s ∷ stores) id w =
      let (r, w') = s.get_chunk id w in
      elim r [
        | ok c ↦ (ok c, w')
        | err e ↦ if is_chunk_missing e then get_from stores id w' else (err (wrapped e), w')
        | panic ↦ (panic, w')
        | out_of_fuel ↦ (out_of_fuel, w')
      ]

  unfoldable pub get_chunk : StoreRouter W → ChunkId → Effect W Chunk
  get_chunk r = get_from r.stores

  unfoldable pub has_in : List (Store W) → ChunkId → Effect W Bool
  has_in [] id w = (ok false, w)
  has_in (s ∷ stores) id w =
      let (r, w') = s.has_chunk id w in
      elim r [
        | ok found ↦ if found then (ok true, w') else has_in stores id w'
        | err e ↦ (err e, w')
        | panic ↦ (panic, w')
        | out_of_fuel ↦ (out_of_fuel, w')
      ]

  unfoldable pub has_chunk : StoreRouter W → ChunkId → Effect W Bool
  has_chunk r = has_in r.stores

  -- Every store is closed; the first error is kept.
  unfoldable pub close_all : List (Store W) → Outcome StoreError (Unit {0}) → Effect W (Unit {0})
  unfolding keep_first
  close_all [] first w = (first, w)
  close_all (s ∷ stores) first w =
      let (r, w') = s.close w in
      elim r [
        | ok u ↦ close_all stores first w'
        | err e ↦ close_all stores (keep_first first e) w'
        | panic ↦ (panic, w')
        | out_of_fuel ↦ (out_of_fuel, w')
      ]

  unfoldable pub close : StoreRouter W → Effect W (Unit {0})
  close r = close_all r.stores (ok tt)
