-- ===== src/Parallel/Progress.antt =====
-- That `IndexFromFile` of make.go does not get stuck.
use desync.Common.{
  ℕ, zero, suc, ◌*◌, ◌^◌, ◌≤◌, ◌<◌, ◌≡◌, refl, inl, inr, List, [], ◌∷◌, Bool-cases, Option, none,
  ltb, arith,
}
use desync.Common.Outcome.{ok}
use desync.Chunk.Defs.{NullChunk, new_null_chunk}
use desync.Chunker.Source.{Source, ReadError}
use desync.Index.Defs.{IndexChunk}
use desync.Parallel.Defs.{Phase, top, produced, unsynced, sending, finished, closed}
use desync.Parallel.Reachable.{run-IsMaking}
use desync.Parallel.System.{
  Making, Step, chunk, sync, no_sync, skip, send, again, close, take, advance, Reaches,
  index_from_file,
}
use desync.Parallel.Work.{SeeksForward}
use desync.Stream.Defs.{ChunkId}

module _ (sum : List ℕ → ChunkId) (seek : ℕ → Source → Option ReadError × Source) (nc : NullChunk)
    (s : Making) (going : s.result ≡ none) (here : s.at < s.count)
    (bound : (s.worker s.at).next ≤ s.count) where
  -- With an empty bucket it is the worker's turn, or the main routine's if the bucket is closed.
  step_of_worker :
      (p : Phase)
      → (s.worker s.at).phase ≡ p
      → (s.worker s.at).results ≡ []
      → (s' : Making) × Step sum seek nc s s'
  step_of_worker top e empty = (_, chunk s s.at here e)
  step_of_worker (produced c) e empty = elim (Bool-cases (ltb (s.worker s.at).next s.count)) [
    | inl some_next ↦ (_, sync s s.at c here e (ground arith))
    | inr last ↦ (_, no_sync s s.at c here e (ground arith))
  ]
  step_of_worker (unsynced c z) e empty = (_, skip s s.at c z here e)
  step_of_worker (sending zero c) e empty = (_, again s s.at c here e)
  step_of_worker (sending (suc m) c) e empty = (_, send s s.at m c here e)
  step_of_worker finished e empty = (_, close s s.at here e)
  step_of_worker closed e empty = (_, advance s going empty e)

  step_of_main :
      (cs : List IndexChunk) → (s.worker s.at).results ≡ cs → (s' : Making) × Step sum seek nc s s'
  step_of_main [] e = step_of_worker (s.worker s.at).phase refl e
  step_of_main (c ∷ cs) e = (_, take s c cs going e)

-- For sizes with the smallest below the largest, ten times the largest below 2 ^ 63, and seeks
-- that skip bytes: in every state that the workers and the main routine reach in which
-- `IndexFromFile` has not returned, one of them can take a step.
pub index_from_file_not_stuck :
    (sum : List ℕ → ChunkId) (seek : ℕ → Source → Option ReadError × Source)
    → SeeksForward seek
    → (d : ℕ → ℕ) (open_at : ℕ → Source) (file_size n min avg max : ℕ)
    → (min < max) × (10 * max < 2 ^ 63)
    → (s s' : Making) → index_from_file d open_at file_size n min avg max ≡ ok s
    → Reaches sum seek (new_null_chunk sum max) s s'
    → s'.result ≡ none
    → (s'' : Making) × Step sum seek (new_null_chunk sum max) s' s''
index_from_file_not_stuck sum seek forward d open_at file_size n min avg max sizes s s' starts run
      going =
    let t = run-IsMaking sum seek forward d open_at file_size n min avg max sizes s s' starts run in
    let here : s'.at < s'.count = omega (arith, t.at_lead, t.lead_below) in
    step_of_main sum seek (new_null_chunk sum max) s' going here (t.after s'.at here).1
      (s'.worker s'.at).results refl
