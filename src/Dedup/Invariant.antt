-- ===== src/Dedup/Invariant.antt =====
-- About the states that the callers of dedupqueue.go reach.
use desync.Common.{ℕ, ◌<◌, ◌≡◌, subst, ◌⊎◌, List, [], ◌∷◌, Option, none, some, arith}
use desync.Dedup.Defs.{
  Caller, idle, asking, answered, marked, waiting, returned, Dedup, new_dedup_queue,
}
use desync.Stream.Defs.{ChunkId}

abbrev pub IsLogged : {R : Type 0} → ChunkId → R → List (ChunkId × R) → Type 0
IsLogged id r [] = ⊥
IsLogged id r ((j, x) ∷ log) = ((id ≡ j) × (r ≡ x)) ⊎ IsLogged id r log

module _ {R : Type 0} where
  -- The request of a caller that is the first for its id: `key` and `owner` say for which id and by
  -- which caller a request was made.
  abbrev pub Owns : (ℕ → ChunkId) → (ℕ → ℕ) → Dedup R → ℕ → ChunkId → ℕ → Option R → Type 0
  Owns key owner q n id a r =
      (q.requests id ≡ some a) × (key a ≡ id) × (owner a ≡ n) × (a < q.fresh) × (q.results a ≡ r)

  -- What holds for a caller.
  abbrev pub IsAt : (ℕ → ChunkId) → (ℕ → ℕ) → Dedup R → ℕ → Caller R → Type 0
  IsAt key owner q n idle = Unit
  IsAt key owner q n (asking id a) = Owns key owner q n id a none
  IsAt key owner q n (answered id a r) = Owns key owner q n id a none × IsLogged id r q.log
  IsAt key owner q n (marked id a r) = Owns key owner q n id a (some r) × IsLogged id r q.log
  IsAt key owner q n (waiting id a) = (key a ≡ id) × (a < q.fresh)
  IsAt key owner q n (returned id r) = IsLogged id r q.log

  -- A caller that is about to finish a request.
  abbrev pub Finishes : ℕ → Caller R → Type 0
  Finishes a (asking id b) = a ≡ b
  Finishes a (answered id b r) = a ≡ b
  Finishes a _ = ⊥

  pub record IsQueue (q : Dedup R) : Type 0 where
    pub key : ℕ → ChunkId
    pub owner : ℕ → ℕ
    pub at : (n : ℕ) (c : Caller R) → q.callers n ≡ c → IsAt key owner q n c
    pub known : (id : ChunkId) (a : ℕ) → q.requests id ≡ some a → (a < q.fresh) × (key a ≡ id)
    pub pending : (a : ℕ) → a < q.fresh → q.results a ≡ none → Finishes a (q.callers (owner a))
    pub results_logged :
        (a : ℕ) (r : R) → a < q.fresh → q.results a ≡ some r → IsLogged (key a) r q.log

  pub new_dedup_queue-IsQueue : IsQueue new_dedup_queue
  unfolding new_dedup_queue
  new_dedup_queue-IsQueue = record {
    key = λ a. [];
    owner = λ a. 0;
    at = λ n c e. subst (IsAt (λ a. []) (λ a. 0) new_dedup_queue n) e tt;
    known = λ id a e. cc;
    pending = λ a h e. omega arith;
    results_logged = λ a r h e. cc;
  }
