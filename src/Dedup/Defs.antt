-- ===== src/Dedup/Defs.antt =====
-- `DedupQueue` of dedupqueue.go, with any number of callers whose steps interleave.
--
-- `GetChunk` and `HasChunk` differ only in what the store answers, which is `R` here: a result or an
-- error. A caller is a number, a request is a number too, its address. What a caller does under a
-- lock, or alone, is one step.
use desync.Common.{ℕ, suc, ◌≡◌, ◌==◌, List, [], ◌∷◌, Option, none, some, if◌then◌else◌}
use desync.Chunk.Defs.{id_equal}
use desync.Stream.Defs.{ChunkId}

-- Where a caller is in `GetChunk`, with its request.
pub data Caller (R : Type 0) : Type 0 where
  idle : Caller R
  -- the first for this id, in the call of the store
  asking : ChunkId → ℕ → Caller R
  -- behind that call, behind `markDone`
  answered marked : ChunkId → ℕ → R → Caller R
  -- in `wait`
  waiting : ChunkId → ℕ → Caller R
  returned : ChunkId → R → Caller R

pub record Dedup (R : Type 0) : Type 0 where
  -- the map of the queue
  pub requests : ChunkId → Option ℕ
  -- the results of the requests, nothing before `markDone`
  pub results : ℕ → Option R
  -- the next address
  pub fresh : ℕ
  pub callers : ℕ → Caller R
  -- the calls of the store that have returned
  pub log : List (ChunkId × R)

unfoldable pub new_dedup_queue : {R : Type 0} → Dedup R
new_dedup_queue = record {
  requests = λ id. none;
  results = λ a. none;
  fresh = 0;
  callers = λ n. idle;
  log = [];
}

module _ {R : Type 0} where
  abbrev pub go_to : ℕ → Caller R → Dedup R → ℕ → Caller R
  go_to n c q m = if n == m then c else q.callers m

  -- `loadOrStore` for an id that is not in flight.
  abbrev pub store_request : ℕ → ChunkId → Dedup R → Dedup R
  store_request n id q = record q {
    requests = λ j. if id_equal id j then some q.fresh else q.requests j;
    results = λ b. if q.fresh == b then none else q.results b;
    fresh = suc q.fresh;
    callers = go_to n (asking id q.fresh) q;
  }

  -- `loadOrStore` for an id that is in flight.
  abbrev pub load_request : ℕ → ChunkId → ℕ → Dedup R → Dedup R
  load_request n id a q = record q { callers = go_to n (waiting id a) q }

  -- The store returns.
  abbrev pub answer : ℕ → ChunkId → ℕ → R → Dedup R → Dedup R
  answer n id a r q = record q { callers = go_to n (answered id a r) q; log = (id, r) ∷ q.log }

  abbrev pub mark_done : ℕ → ChunkId → ℕ → R → Dedup R → Dedup R
  mark_done n id a r q = record q {
    results = λ b. if a == b then some r else q.results b;
    callers = go_to n (marked id a r) q;
  }

  abbrev pub delete_request : ℕ → ChunkId → R → Dedup R → Dedup R
  delete_request n id r q = record q {
    requests = λ j. if id_equal id j then none else q.requests j;
    callers = go_to n (returned id r) q;
  }

  abbrev pub wake : ℕ → ChunkId → R → Dedup R → Dedup R
  wake n id r q = record q { callers = go_to n (returned id r) q }

  -- A step of one caller.
  pub data Step : Dedup R → Dedup R → Type 0 where
    first :
        (q : Dedup R) (n : ℕ) (id : ChunkId)
        → q.callers n ≡ idle
        → q.requests id ≡ none
        → Step q (store_request n id q)
    join :
        (q : Dedup R) (n : ℕ) (id : ChunkId) (a : ℕ)
        → q.callers n ≡ idle
        → q.requests id ≡ some a
        → Step q (load_request n id a q)
    call :
        (q : Dedup R) (n : ℕ) (id : ChunkId) (a : ℕ) (r : R)
        → q.callers n ≡ asking id a
        → Step q (answer n id a r q)
    mark :
        (q : Dedup R) (n : ℕ) (id : ChunkId) (a : ℕ) (r : R)
        → q.callers n ≡ answered id a r
        → Step q (mark_done n id a r q)
    drop_request :
        (q : Dedup R) (n : ℕ) (id : ChunkId) (a : ℕ) (r : R)
        → q.callers n ≡ marked id a r
        → Step q (delete_request n id r q)
    wait :
        (q : Dedup R) (n : ℕ) (id : ChunkId) (a : ℕ) (r : R)
        → q.callers n ≡ waiting id a
        → q.results a ≡ some r
        → Step q (wake n id r q)

  -- What callers lead to, one step after another.
  pub data Reaches : Dedup R → Dedup R → Type 0 where
    stay : (q : Dedup R) → Reaches q q
    then_step : (q q' q'' : Dedup R) → Reaches q q' → Step q' q'' → Reaches q q''
