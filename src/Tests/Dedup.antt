-- ===== src/Tests/Dedup.antt =====
-- Two callers that ask for the same chunk at the same time.
use desync.Common.{ℕ, ◌≡◌, refl, ◌⊎◌, [], ◌∷◌, some}
use desync.Dedup.Defs.{
  asking, waiting, returned, Dedup, new_dedup_queue, store_request, load_request, answer, mark_done,
  wake, first, join, call, mark, wait, Reaches, stay, then_step,
}
use desync.Dedup.Flight.{single_flight, returned-IsLogged, waiting_ends}
use desync.Dedup.Invariant.{IsLogged, Finishes}
use desync.Chunk.Defs.{id_equal}
use desync.Stream.Defs.{ChunkId}

abbrev three : ChunkId
three = 3 ∷ []

abbrev start : Dedup ℕ
start = new_dedup_queue

abbrev asked : Dedup ℕ
asked = store_request 0 three start

abbrev joined : Dedup ℕ
joined = load_request 1 three 0 asked

abbrev came_back : Dedup ℕ
came_back = answer 0 three 0 42 joined

abbrev signalled : Dedup ℕ
signalled = mark_done 0 three 0 42 came_back

abbrev woken : Dedup ℕ
woken = wake 1 three 42 signalled

to_joined : Reaches start joined
unfolding new_dedup_queue id_equal
to_joined =
    then_step start asked joined
      (then_step start start asked (stay start) (first start 0 three refl refl))
      (join asked 1 three 0 refl refl)

to_woken : Reaches start woken
unfolding new_dedup_queue id_equal
to_woken =
    then_step start signalled woken
      (then_step start came_back signalled
        (then_step start joined came_back to_joined (call joined 0 three 0 42 refl))
        (mark came_back 0 three 0 42 refl))
      (wait signalled 1 three 0 42 refl refl)

caller_0 : joined.callers 0 ≡ asking three 0
unfolding new_dedup_queue
caller_0 = refl

caller_1 : joined.callers 1 ≡ waiting three 0
unfolding new_dedup_queue
caller_1 = refl

got : woken.callers 1 ≡ returned three 42
unfolding new_dedup_queue
got = refl

single_flight_example : ◌≡◌ {A = ℕ} 0 0
single_flight_example = single_flight joined 0 0 three 0 0 to_joined caller_0 caller_0

returned-IsLogged_example : IsLogged three 42 woken.log
returned-IsLogged_example = returned-IsLogged woken 1 three 42 to_woken got

waiting_ends_example :
    ((r : ℕ) × (joined.results 0 ≡ some r)) ⊎ ((m : ℕ) × Finishes 0 (joined.callers m))
waiting_ends_example = waiting_ends joined 1 three 0 to_joined caller_1
