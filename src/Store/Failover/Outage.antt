-- ===== src/Store/Failover/Outage.antt =====
-- About `GetChunk` of failover.go when every store of the group fails.
use desync.Common.{
  ℕ, zero, suc, ◌+◌, ◌%◌, ◌≡◌, refl, sym, subst, ◌∙◌, ap, length, get_elem?, false, Option, none,
  some, arith,
}
use desync.Common.Outcome.{Outcome, ok, err, panic, out_of_fuel}
use desync.Chunk.Defs.{Chunk, StoreError}
use desync.Store.Defs.{Store, is_chunk_missing}
use desync.Store.Failover.{FailoverGroup, Answer, after_get, get_chunk_rounds, get_chunk}
use desync.Store.Failover.Rotation.{InRange, rotated, get_elem?-lt, get_chunk_round}
use desync.Stream.Defs.{ChunkId}
use native.Mathlib.Nat.{mod-eq_of_lt, mod-lt, mod-add-mod, add-mod_right, add-zero}
use mathlib.Core.List.{List}

-- An error that is no missing chunk.
abbrev pub IsFailure : {A : Type 0} → Outcome StoreError A → Type 0
IsFailure (err e) = is_chunk_missing e ≡ false
IsFailure _ = ⊥

turn :
    {W : Type 0} (g : FailoverGroup W) (rounds : ℕ)
    → ((rotated g).active + rounds) % length g.stores ≡ (g.active + suc rounds) % length g.stores
turn g rounds =
    mod-add-mod (g.active + 1) (length g.stores) rounds
    ∙ ap (λ n. n % length g.stores) (omega arith)

full_turn :
    {W : Type 0} (g : FailoverGroup W) (n : ℕ)
    → length g.stores ≡ suc n
    → InRange g
    → ((rotated g).active + n) % length g.stores ≡ g.active
full_turn g n e h =
    turn g n
    ∙ ap (λ m. (g.active + m) % length g.stores) (sym e)
    ∙ add-mod_right g.active (length g.stores)
    ∙ mod-eq_of_lt {n = g.active} {m = length g.stores} h

module _ {W : Type 0} (id : ChunkId) where
  -- In every state every store of the group fails.
  abbrev pub IsDown : List (Store W) → Type 0
  IsDown stores =
      (i : ℕ) (t : Store W) (w : W) → get_elem? stores i ≡ some t → IsFailure (t.get_chunk id w).0

  -- The state behind asking a store.
  abbrev state_behind : Option (Store W) → W → W
  state_behind none w = w
  state_behind (some t) w = (t.get_chunk id w).1

  -- The state behind asking so many stores in turn, from a position on, each of them once.
  abbrev pub asked : List (Store W) → ℕ → ℕ → W → W
  asked stores zero i w = w
  asked stores (suc n) i w =
      asked stores n ((i + 1) % length stores) (state_behind (get_elem? stores i) w)

  -- A failure, with the store `active` active and the state `v` afterwards.
  abbrev HasFailed : ℕ → W → Answer W (Option Chunk) → Type 0
  HasFailed active v a = IsFailure a.0 × (a.1.active ≡ active) × (a.2 ≡ v)

  goes_on :
      (active : ℕ) (v : W) (g : FailoverGroup W) (r : Outcome StoreError Chunk × W)
      (rest : StoreError → W → Answer W (Option Chunk))
      → IsFailure r.0
      → ((e : StoreError) → is_chunk_missing e ≡ false → HasFailed active v (rest e r.1))
      → HasFailed active v (after_get rest g r)
  unfolding after_get
  goes_on active v g (err e, w) rest f k = rw f (k e f)
  goes_on active v g (ok c, w) rest f k = absurd f
  goes_on active v g (panic, w) rest f k = absurd f
  goes_on active v g (out_of_fuel, w) rest f k = absurd f

  one_round :
      (rounds active : ℕ) (v : W) (g_err : Option StoreError) (g : FailoverGroup W) (w : W)
      → IsDown g.stores
      → InRange g
      → ((e : StoreError)
          → is_chunk_missing e ≡ false
          → HasFailed active v (
              get_chunk_rounds rounds
                (some e)
                (rotated g)
                id
                (state_behind (get_elem? g.stores g.active) w)))
      → HasFailed active v (get_chunk_rounds (suc rounds) g_err g id w)
  one_round rounds active v g_err g w down h k =
      let (t, at) = get_elem?-lt g.stores g.active h in
      let behind : state_behind (get_elem? g.stores g.active) w ≡ (t.get_chunk id w).1 =
        ap (λ o. state_behind o w) at in
      rw (get_chunk_round rounds g_err g t id w at) (
        goes_on active v g (t.get_chunk id w) _ (down g.active t w at) (λ e m.
          subst (λ u. HasFailed active v (get_chunk_rounds rounds (some e) (rotated g) id u)) behind
            (k e m)))

  rounds_fail :
      (rounds : ℕ) (x : StoreError) (g : FailoverGroup W) (w : W)
      → is_chunk_missing x ≡ false
      → IsDown g.stores
      → InRange g
      → HasFailed
          ((g.active + rounds) % length g.stores)
          (asked g.stores rounds g.active w)
          (get_chunk_rounds rounds (some x) g id w)
  rounds_fail zero x g w nm down h =
      unfold get_chunk_rounds in
      (nm, rw (add-zero, mod-eq_of_lt {n = g.active} {m = length g.stores} h) refl, refl)
  rounds_fail (suc rounds) x g w nm down h = one_round rounds _ _ (some x) g w down h (λ e f.
      rw (← turn g rounds) (rounds_fail rounds e (rotated g) _ f down (mod-lt _ (omega arith))))

  -- When every store fails in every state and the active position is in range, so does the group,
  -- with an error that does not say that the chunk is missing; the store that was active is
  -- active again; and the state is that behind asking every store once, in turn from the active
  -- one on.
  pub get_chunk_all_fail :
      (g : FailoverGroup W) (w : W)
      → IsDown g.stores
      → InRange g
      → IsFailure (get_chunk g id w).0
        × ((get_chunk g id w).1.active ≡ g.active)
        × ((get_chunk g id w).2 ≡ asked g.stores (length g.stores) g.active w)
  unfolding get_chunk
  get_chunk_all_fail g w down h = from_length (length g.stores) refl
    where
      from_length :
          (n : ℕ)
          → length g.stores ≡ n
          → HasFailed g.active
              (asked g.stores (length g.stores) g.active w)
              (get_chunk_rounds (length g.stores) none g id w)
      from_length zero e = absurd (omega arith)
      from_length (suc n) e =
          subst
            (λ m. HasFailed g.active (asked g.stores m g.active w) (get_chunk_rounds m none g id w))
            (sym e)
            (one_round n g.active _ none g w down h (λ x f.
              let (failed, active, state) =
                rounds_fail n x (rotated g) _ f down (mod-lt _ (omega arith)) in
              (failed, active ∙ full_turn g n e h, state)))
