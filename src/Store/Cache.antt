-- ===== src/Store/Cache.antt =====
-- `Cache` and `RepairableCache` of cache.go.
pub mod Hits
use desync.Common.{Bool, true, false, Option, none, some, if◌then◌else◌}
use desync.Common.Outcome.{Outcome, ok, err, panic, out_of_fuel}
use desync.Chunk.Defs.{Chunk, StoreError, chunk_missing, wrapped}
use desync.Store.Defs.{Store, WriteStore, Effect, is_chunk_missing, as_chunk_invalid}
use desync.Stream.Defs.{ChunkId}

pub record Cache (W : Type 0) : Type 0 where
  pub s : Store W
  pub l : WriteStore W

pub record RepairableCache (W : Type 0) : Type 0 where
  pub l : WriteStore W

invalid_as_missing : StoreError → StoreError
invalid_as_missing e = elim (as_chunk_invalid e) [ some id ↦ chunk_missing id | none ↦ e ]

module _ {W : Type 0} where
  -- A chunk from the remote store is stored in the local one.
  keep_locally : WriteStore W → Outcome StoreError Chunk × W → Outcome StoreError Chunk × W
  keep_locally l (ok c, w) =
      let (r, w') = l.store_chunk c w in
      elim r [
        | ok u ↦ (ok c, w')
        | err e ↦ (err (wrapped e), w')
        | panic ↦ (panic, w')
        | out_of_fuel ↦ (out_of_fuel, w')
      ]
  keep_locally l r = r

  -- Only a chunk that is missing in the local store is asked of the remote one.
  unfoldable pub get_chunk : Cache W → ChunkId → Effect W Chunk
  unfolding keep_locally
  get_chunk c id w =
      let (r, w') = c.l.get_chunk id w in
      elim r [
        | ok chunk ↦ (ok chunk, w')
        | err e ↦ if is_chunk_missing e then keep_locally c.l (c.s.get_chunk id w') else (err e, w')
        | panic ↦ (panic, w')
        | out_of_fuel ↦ (out_of_fuel, w')
      ]

  unfoldable pub has_chunk : Cache W → ChunkId → Effect W Bool
  has_chunk c id w =
      let (r, w') = c.l.has_chunk id w in
      elim r [
        | ok found ↦ if found then (ok true, w') else c.s.has_chunk id w'
        | err e ↦ (err e, w')
        | panic ↦ (panic, w')
        | out_of_fuel ↦ (out_of_fuel, w')
      ]

  -- The error of closing the local store is dropped.
  unfoldable pub close : Cache W → Effect W (Unit {0})
  close c w =
      let (r, w') = c.l.close w in
      elim r [ panic ↦ (panic, w') | out_of_fuel ↦ (out_of_fuel, w') | _ ↦ c.s.close w' ]

  unfoldable pub repairable_get_chunk : RepairableCache W → ChunkId → Effect W Chunk
  unfolding invalid_as_missing
  repairable_get_chunk r id w =
      let (o, w') = r.l.get_chunk id w in
      elim o [ err e ↦ (err (invalid_as_missing e), w') | other ↦ (other, w') ]

  -- The store that `NewRepairableCache` gives: all other methods are those of the store inside.
  unfoldable pub new_repairable_cache : WriteStore W → WriteStore W
  new_repairable_cache l = record {
    store = record {
      get_chunk = repairable_get_chunk (record { l = l });
      has_chunk = l.has_chunk;
      close = l.close;
    };
    store_chunk = l.store_chunk;
  }
