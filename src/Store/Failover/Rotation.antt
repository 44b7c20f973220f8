-- ===== src/Store/Failover/Rotation.antt =====
-- About `errorFrom` and `GetChunk` of failover.go: how the active store changes.
use desync.Common.{
  ℕ, zero, suc, ◌+◌, ◌-◌, ◌%◌, ◌<◌, ◌≡◌, ◌≢◌, refl, sym, List, [], ◌∷◌, length, get_elem?, ◌==◌,
  Bool-cases, ==_refl, ==_iff, leb, true, false, Option, none, some, inl, inr, if◌then◌else◌, arith,
}
use native.Mathlib.Nat.{mod_self, mod-eq_of_lt, mod-lt}
use desync.Common.Outcome.{Outcome, ok, err, panic, out_of_fuel}
use desync.Chunk.Defs.{Chunk, StoreError}
use desync.Store.Defs.{Store, is_chunk_missing}
use desync.Store.Failover.{
  FailoverGroup, Answer, error_from, current, after_get, get_chunk_rounds, get_chunk,
}
use desync.Stream.Defs.{ChunkId}

abbrev pub InRange : {W : Type 0} → FailoverGroup W → Type 0
InRange g = g.active < length g.stores

-- A chunk, or the answer that it is missing.
abbrev pub IsSettled : {A : Type 0} → Outcome StoreError A → Type 0
IsSettled (ok a) = Unit
IsSettled (err e) = is_chunk_missing e ≡ true
IsSettled _ = ⊥

-- The answer of a store as one of the group.
abbrev pub as_answer : Outcome StoreError Chunk → Outcome StoreError (Option Chunk)
as_answer (ok c) = ok (some c)
as_answer (err e) = err e
as_answer panic = panic
as_answer out_of_fuel = out_of_fuel

-- A result or an error, and no panic.
abbrev pub IsReturn : {A : Type 0} → Outcome StoreError A → Type 0
IsReturn (ok a) = Unit
IsReturn (err e) = Unit
IsReturn _ = ⊥

-- How many failures it takes until the store `k` is active.
steps : ℕ → ℕ → ℕ → ℕ
steps n active k = if leb active k then k - active else k + n - active

pub get_elem?-lt :
    {A : Type 0} (xs : List A) (i : ℕ) → i < length xs → (x : A) × (get_elem? xs i ≡ some x)
get_elem?-lt [] i h = absurd (omega arith)
get_elem?-lt (x ∷ xs) zero h = (x, refl)
get_elem?-lt (x ∷ xs) (suc i) h = get_elem?-lt xs i (omega arith)

steps-lt : (n a k : ℕ) → a < n → k < n → steps n a k < n
unfolding steps
steps-lt n a k h hk = ground arith

next_position : (n a k : ℕ) → a < n → k < n → k ≢ a → steps n ((a + 1) % n) k + 1 ≡ steps n a k
unfolding steps
next_position n a k ha hk ne = elim (Bool-cases (a + 1 == n)) [
  | inl e ↦ let same : a + 1 ≡ n = (==_iff (a + 1) n).0 e in rw (same, mod_self) (ground arith)
  | inr e ↦ rw (mod-eq_of_lt {n = a + 1} {m = n} (ground arith)) (ground arith)
]

module _ {W : Type 0} where
  -- The group after a failure of its active store.
  abbrev pub rotated : FailoverGroup W → FailoverGroup W
  rotated g = record g { active = (g.active + 1) % length g.stores }

  error_from-active : (g : FailoverGroup W) → error_from g g.active ≡ rotated g
  unfolding error_from
  error_from-active g = rw ==_refl

  -- A round with an active store at hand.
  pub get_chunk_round :
      (rounds : ℕ) (g_err : Option StoreError) (g : FailoverGroup W) (s : Store W) (id : ChunkId)
      (w : W)
      → get_elem? g.stores g.active ≡ some s
      → get_chunk_rounds (suc rounds) g_err g id w
        ≡ after_get
            (λ e w'. get_chunk_rounds rounds (some e) (rotated g) id w')
            g
            (s.get_chunk id w)
  unfolding get_chunk_rounds current
  get_chunk_round rounds g_err g s id w h = rw (get_chunk_rounds, current, h, error_from-active)

  -- A round ends with the answer of its store, or goes on behind an error that does not settle the
  -- request.
  after_get_cases :
      (P : Outcome StoreError (Option Chunk) → Type 0) (r : Outcome StoreError Chunk × W)
      (g : FailoverGroup W) (rest : StoreError → W → Answer W (Option Chunk))
      → IsReturn r.0
      → (IsSettled r.0 → P (as_answer r.0))
      → ((e : StoreError) (w : W) → is_chunk_missing e ≡ false → P (rest e w).0)
      → P (after_get rest g r).0
  unfolding after_get
  after_get_cases P (ok c, w) g rest h now later = now tt
  after_get_cases P (err e, w) g rest h now later = elim (Bool-cases (is_chunk_missing e)) [
    | inl m ↦ rw m (now m)
    | inr m ↦ rw m (later e w m)
  ]
  after_get_cases P (panic, w) g rest h now later = absurd h
  after_get_cases P (out_of_fuel, w) g rest h now later = absurd h

  -- The round of a store that settles the request.
  settled :
      (P : Outcome StoreError (Option Chunk) → Type 0) (r : Outcome StoreError Chunk × W)
      (g : FailoverGroup W) (rest : StoreError → W → Answer W (Option Chunk))
      → IsSettled r.0
      → P (as_answer r.0)
      → P (after_get rest g r).0
  unfolding after_get
  settled P (ok c, w) g rest h now = now
  settled P (err e, w) g rest h now = rw h now
  settled P (panic, w) g rest h now = absurd h
  settled P (out_of_fuel, w) g rest h now = absurd h

  -- An answer that a store of the group gave in some state: a chunk, or that it is missing.
  abbrev pub IsAnswerOf : ChunkId → List (Store W) → Outcome StoreError (Option Chunk) → Type 0
  IsAnswerOf id stores a =
      (i : ℕ) × (t : Store W) × (v : W) × (get_elem? stores i ≡ some t)
      × IsSettled (t.get_chunk id v).0
      × (a ≡ as_answer (t.get_chunk id v).0)

  module _ (id : ChunkId) (k : ℕ) (s : Store W) where
    -- The store `k` settles the request in every state, and no store panics.
    pub record IsAvailable (stores : List (Store W)) : Type 0 where
      pub in_group : get_elem? stores k ≡ some s
      pub in_range : k < length stores
      pub settles : (w : W) → IsSettled (s.get_chunk id w).0
      pub returns :
          (i : ℕ) (t : Store W) (w : W)
          → get_elem? stores i ≡ some t
          → IsReturn (t.get_chunk id w).0

    -- If one store of the group settles requests in every state, and the stores return at all, the
    -- group settles the request within as many rounds as it takes to come to that store.
    get_chunk_rounds-IsAnswerOf :
        (rounds : ℕ) (g_err : Option StoreError) (g : FailoverGroup W) (w : W)
        → IsAvailable g.stores
        → InRange g
        → steps (length g.stores) g.active k < rounds
        → IsAnswerOf id g.stores (get_chunk_rounds rounds g_err g id w).0
    get_chunk_rounds-IsAnswerOf zero g_err g w av h m = elim m [ ]
    get_chunk_rounds-IsAnswerOf (suc rounds) g_err g w av h m = elim (Bool-cases (k == g.active)) [
      | inl e ↦
          let same : g.active ≡ k = sym ((==_iff k g.active).0 e) in
          let here : get_elem? g.stores g.active ≡ some s = rw same av.in_group in
          rw (get_chunk_round rounds g_err g s id w here) (
            settled (IsAnswerOf id g.stores) (s.get_chunk id w) g _ (av.settles w)
              (k, s, w, av.in_group, av.settles w, refl))
      | inr e ↦
          let (t, at) = get_elem?-lt g.stores g.active h in
          rw (get_chunk_round rounds g_err g t id w at) (
            after_get_cases (IsAnswerOf id g.stores) (t.get_chunk id w) g _
              (av.returns g.active t w at) (λ done. (g.active, t, w, at, done, refl))
              (λ x w' failed.
                get_chunk_rounds-IsAnswerOf rounds (some x) (rotated g) w' av
                  (mod-lt _ (omega arith))
                  (omega (
                    arith,
                    next_position (length g.stores) g.active k h av.in_range (λ p. ground arith),
                  ))))
    ]

  -- If one store of the group gives a chunk, or the answer that it is missing, in every state,
  -- the active position is in range and no store panics, the group returns a chunk, or the answer
  -- that it is missing, that one of its stores gave in some state, whatever errors the other
  -- stores give.
  pub get_chunk-IsSettled :
      (g : FailoverGroup W) (id : ChunkId) (k : ℕ) (s : Store W) (w : W)
      → IsAvailable id k s g.stores
      → InRange g
      → IsAnswerOf id g.stores (get_chunk g id w).0
  unfolding get_chunk
  get_chunk-IsSettled g id k s w av h =
      get_chunk_rounds-IsAnswerOf id k s (length g.stores) none g w av h
        (steps-lt _ _ _ h av.in_range)
