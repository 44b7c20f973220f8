-- ===== src/Store/Failover.antt =====
-- `FailoverGroup` of failover.go, for one request at a time.
pub mod Rotation
pub mod Outage
use desync.Common.{
  ℕ, zero, suc, ◌+◌, ◌%◌, List, [], ◌∷◌, length, get_elem?, Bool, true, false, Option, none, some,
  ◌==◌, not, if◌then◌else◌,
}
use desync.Common.Outcome.{Outcome, ok, err, panic, out_of_fuel}
use desync.Chunk.Defs.{Chunk, StoreError}
use desync.Store.Defs.{Store, is_chunk_missing}
use desync.Stream.Defs.{ChunkId}

-- `active` is the position of the active store.
pub record FailoverGroup (W : Type 0) : Type 0 where
  pub stores : List (Store W)
  pub active : ℕ

-- What a request returns, with the group and the state behind it. A nil chunk with a nil error
-- is `ok none`.
abbrev pub Answer : Type 0 → Type 0 → Type 0
Answer W A = Outcome StoreError A × FailoverGroup W × W

-- The error of the last failure, if there was one.
last_error : {A : Type 0} → Option StoreError → A → Outcome StoreError A
last_error none a = ok a
last_error (some e) a = err e

module _ {W : Type 0} where
  pub new_failover_group : List (Store W) → FailoverGroup W
  new_failover_group stores = record { stores = stores; active = 0 }

  -- `none` is the panic of an index out of range.
  unfoldable pub current : FailoverGroup W → Option (Store W)
  current g = get_elem? g.stores g.active

  -- The store `i` failed: the next one becomes active, unless another request has seen to it.
  unfoldable pub error_from : FailoverGroup W → ℕ → FailoverGroup W
  error_from g i =
      if not (i == g.active) then g else record g { active = (g.active + 1) % length g.stores }

  -- What one round makes of the active store's reply; `rest` is the loop after a failover.
  unfoldable pub after_get :
      (StoreError → W → Answer W (Option Chunk))
      → FailoverGroup W
      → Outcome StoreError Chunk × W
      → Answer W (Option Chunk)
  after_get rest g (ok c, w) = (ok (some c), g, w)
  after_get rest g (err e, w) = if is_chunk_missing e then (err e, g, w) else rest e w
  after_get rest g (panic, w) = (panic, g, w)
  after_get rest g (out_of_fuel, w) = (out_of_fuel, g, w)

  unfoldable pub get_chunk_rounds :
      ℕ → Option StoreError → FailoverGroup W → ChunkId → W → Answer W (Option Chunk)
  unfolding last_error
  get_chunk_rounds zero g_err g id w = (last_error g_err none, g, w)
  get_chunk_rounds (suc rounds) g_err g id w = elim (current g) [
    | none ↦ (panic, g, w)
    | some s ↦
        after_get (λ e w'. get_chunk_rounds rounds (some e) (error_from g g.active) id w') g
          (s.get_chunk id w)
  ]

  -- At most one round for each store.
  unfoldable pub get_chunk : FailoverGroup W → ChunkId → W → Answer W (Option Chunk)
  get_chunk g = get_chunk_rounds (length g.stores) none g

  -- The same for `HasChunk`, where any error leads to the next store.
  unfoldable pub after_has :
      (StoreError → W → Answer W Bool)
      → FailoverGroup W
      → Outcome StoreError Bool × W
      → Answer W Bool
  after_has rest g (ok found, w) = (ok found, g, w)
  after_has rest g (err e, w) = rest e w
  after_has rest g (panic, w) = (panic, g, w)
  after_has rest g (out_of_fuel, w) = (out_of_fuel, g, w)

  unfoldable pub has_chunk_rounds :
      ℕ → Option StoreError → FailoverGroup W → ChunkId → W → Answer W Bool
  unfolding last_error
  has_chunk_rounds zero g_err g id w = (last_error g_err false, g, w)
  has_chunk_rounds (suc rounds) g_err g id w = elim (current g) [
    | none ↦ (panic, g, w)
    | some s ↦
        after_has (λ e w'. has_chunk_rounds rounds (some e) (error_from g g.active) id w') g
          (s.has_chunk id w)
  ]

  unfoldable pub has_chunk : FailoverGroup W → ChunkId → W → Answer W Bool
  has_chunk g = has_chunk_rounds (length g.stores) none g

  -- Every store is closed; the last error is kept.
  unfoldable pub close_each :
      List (Store W) → Outcome StoreError (Unit {0}) → W → Outcome StoreError (Unit {0}) × W
  close_each [] last w = (last, w)
  close_each (s ∷ stores) last w =
      let (r, w') = s.close w in
      elim r [
        | ok u ↦ close_each stores last w'
        | err e ↦ close_each stores (err e) w'
        | panic ↦ (panic, w')
        | out_of_fuel ↦ (out_of_fuel, w')
      ]

  unfoldable pub close : FailoverGroup W → W → Outcome StoreError (Unit {0}) × W
  close g = close_each g.stores (ok tt)
