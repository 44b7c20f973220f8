-- ===== src/Tests/Parallel.antt =====
-- A file of zero bytes that several workers chunk.
use desync.Common.{
  ℕ, zero, suc, ◌≤◌, ◌<◌, ◌≡◌, ◌≢◌, refl, ap, List, length, replicate, drop, All, false, Option,
  none, some, arith,
}
use desync.Common.Outcome.{ok}
use desync.Chunk.Defs.{new_null_chunk, zero_id}
use desync.Chunker.Defs.{new_chunker}
use desync.Chunker.Source.{Source, ReadError, last, contents}
use desync.Index.Defs.{last_end}
use desync.Index.Layout.{Tiles}
use desync.Parallel.Progress.{index_from_file_not_stuck}
use desync.Parallel.Reachable.{run-IsMaking}
use desync.Chunker.Defs.{
  next, below_int, within_int, min_int, fill_buffer, filled, reported, next_in_buffer, after_fill,
  split, scan, add_byte, hash_of_rotated,
}
use desync.Chunker.Source.{fill, before}
use desync.Chunker.Words.{rotate_left32}
use desync.Chunker.Words
use desync.Chunker.Hash.{hash_of, byte_at, mix_window}
use desync.Chunk.Defs.{id_equal}
use desync.Parallel.Defs.{
  produce, made, fail, sync_with, catch_up, compare_with, count_nulls, empty_handed, is_closed,
  read_by, skip_zeroes, moved_on, null_chunks, advance, send_null, null_behind, end_of, active,
}
use desync.Parallel.System.{
  count_produced, set_worker, synced, behind_sync, skip_next, is_empty, accept, behind_worker,
  inc_accepted, inc_produced,
}
use desync.Parallel.Schedule.{
  main_turn, main_turn_with, turn, turn_in, turns, main_turns, turns-Reaches, main_turns-Reaches,
}
use desync.Parallel.System.{
  Making, Step, Reaches, stay, index_from_file, worker_count, started, new_worker,
}
use desync.Parallel.Whole.{index_from_file_sound, index_from_file_whole}
use desync.Parallel.Work.{SeeksForward}
use desync.Parallel.Zeroes.{IsChunkOf}
use desync.Stream.Defs.{ChunkId}
use desync.Tests.Chunking.{small_chunker}

abbrev zeroes_from : ℕ → ℕ → Source
zeroes_from size p = last (drop p (replicate size 0))

abbrev seek : ℕ → Source → Option ReadError × Source
seek n r = (none, last (drop n (contents r)))

-- The bytes themselves, in place of a digest.
abbrev bytes : List ℕ → ChunkId
bytes b = b

bytes_not_zero : bytes (replicate 64 0) ≢ zero_id
bytes_not_zero e = let h = ap length e in omega (arith, h)

abbrev discriminator : ℕ → ℕ
discriminator avg = 42

-- The workers before they start.
abbrev start : ℕ → ℕ → Making
start size n =
    started (zeroes_from size) size n
      (record small_chunker { r = zeroes_from size 0; min = 63; avg = 63 })

start_2 : index_from_file discriminator (zeroes_from 128) 128 2 63 63 64 ≡ ok (start 128 2)
unfolding index_from_file worker_count new_chunker
start_2 = refl

abbrev run : ℕ → ℕ → Making → Making
run = turns bytes seek (new_null_chunk bytes 64)

abbrev collect : ℕ → Making → Making
collect = main_turns bytes seek (new_null_chunk bytes 64)

-- Each worker meets the next one.
abbrev in_step : Making
in_step = collect 4 (run 7 0 (run 4 1 (start 128 2)))

in_step_done : in_step.result ≡ some none
unfolding main_turns main_turn main_turn_with turns turn turn_in started new_worker count_produced
    produce made fail next below_int within_int min_int fill_buffer fill filled reported before
    next_in_buffer after_fill split scan add_byte rotate_left32 hash_of_rotated hash_of byte_at
    mix_window Words.is_boundary id_equal contents set_worker synced sync_with catch_up compare_with
    count_nulls empty_handed is_closed read_by behind_sync skip_zeroes moved_on null_chunks advance
    send_null null_behind end_of skip_next active is_empty accept behind_worker inc_accepted
    inc_produced new_null_chunk
in_step_done = refl

-- The second of four workers does not meet the others.
abbrev out_of_step : Making
out_of_step = collect 8 (run 17 0 (run 18 2 (run 22 1 (start 386 4))))

-- The index ends two bytes before the end of the file, and there is no error.
two_bytes_lost : (out_of_step.result ≡ some none) × (last_end out_of_step.chunks ≡ 384)
unfolding main_turns last_end main_turn main_turn_with turns turn turn_in started new_worker
    count_produced produce made fail next below_int within_int min_int fill_buffer fill filled
    reported before next_in_buffer after_fill split scan add_byte rotate_left32 hash_of_rotated
    hash_of byte_at mix_window Words.is_boundary id_equal contents set_worker synced sync_with
    catch_up compare_with count_nulls empty_handed is_closed read_by behind_sync skip_zeroes
    moved_on null_chunks advance send_null null_behind end_of skip_next active is_empty accept
    behind_worker inc_accepted inc_produced new_null_chunk
two_bytes_lost = (refl, refl)

start_4 : index_from_file discriminator (zeroes_from 386) 386 4 63 63 64 ≡ ok (start 386 4)
unfolding index_from_file worker_count new_chunker
start_4 = refl

seek-SeeksForward : SeeksForward seek
unfolding contents
seek-SeeksForward n r e = refl

-- Turns lead from the start to states that are reached.
module _ (size n : ℕ)
    (starts : index_from_file discriminator (zeroes_from size) size n 63 63 64
      ≡ ok (start size n)) where
  abbrev IsReached : Making → Type 0
  IsReached = Reaches bytes seek (new_null_chunk bytes 64) (start size n)

  next_in : (s : Making) (j : ℕ) → IsReached s → j < s.count → (s.worker j).next ≤ s.count
  next_in s j r h =
      let t =
        run-IsMaking bytes seek seek-SeeksForward discriminator (zeroes_from size) size n 63 63 64
          (omega arith) (start size n) s starts r in
      (t.after j h).1

  run-IsReached :
      (k j : ℕ) (s : Making)
      → IsReached s
      → j < s.count
      → IsReached (run k j s) × ((run k j s).count ≡ s.count)
  run-IsReached = turns-Reaches bytes seek (new_null_chunk bytes 64) (start size n) next_in

  collect-IsReached : (k : ℕ) (s : Making) → IsReached s → IsReached (collect k s)
  collect-IsReached = main_turns-Reaches bytes seek (new_null_chunk bytes 64) (start size n) next_in

in_step-IsReached : IsReached 128 2 start_2 in_step
unfolding started
in_step-IsReached =
    let (r, e) = run-IsReached 128 2 start_2 4 1 (start 128 2) (stay (start 128 2)) (omega arith) in
    let (r', e') = run-IsReached 128 2 start_2 7 0 (run 4 1 (start 128 2)) r (omega (arith, e)) in
    collect-IsReached 128 2 start_2 4 _ r'

out_of_step-IsReached : IsReached 386 4 start_4 out_of_step
unfolding started
out_of_step-IsReached =
    let (r, e) =
      run-IsReached 386 4 start_4 22 1 (start 386 4) (stay (start 386 4)) (omega arith) in
    let (r', e') = run-IsReached 386 4 start_4 18 2 (run 22 1 (start 386 4)) r (omega (arith, e)) in
    let (r'', e'') =
      run-IsReached 386 4 start_4 17 0 (run 18 2 (run 22 1 (start 386 4))) r'
        (omega (arith, e, e')) in
    collect-IsReached 386 4 start_4 8 _ r''

opens : (size p : ℕ) → contents (zeroes_from size p) ≡ drop p (replicate size 0)
unfolding contents
opens size p = refl

in_step_ends : (j : ℕ) → suc j < in_step.count → (in_step.worker j).eof ≡ false
unfolding main_turns main_turn main_turn_with turns turn turn_in started new_worker count_produced
    produce made fail next below_int within_int min_int fill_buffer fill filled reported before
    next_in_buffer after_fill split scan add_byte rotate_left32 hash_of_rotated hash_of byte_at
    mix_window Words.is_boundary id_equal contents set_worker synced sync_with catch_up compare_with
    count_nulls empty_handed is_closed read_by behind_sync skip_zeroes moved_on null_chunks advance
    send_null null_behind end_of skip_next active is_empty accept behind_worker inc_accepted
    inc_produced new_null_chunk
in_step_ends zero h = refl
in_step_ends (suc j) h = absurd (omega arith)

index_from_file_whole_example :
    Tiles 0 in_step.chunks 128 × All (IsChunkOf bytes (replicate 128 0)) in_step.chunks
index_from_file_whole_example =
    index_from_file_whole bytes seek seek-SeeksForward (replicate 128 0) (omega arith)
      (zeroes_from 128) (opens 128) discriminator 2 63 63 64 (omega arith, omega arith) (λ b e. e)
      bytes_not_zero (start 128 2) in_step start_2 in_step-IsReached in_step_done in_step_ends

index_from_file_sound_example :
    All (IsChunkOf bytes (replicate 386 0)) out_of_step.chunks
    × ((end : ℕ) × Tiles 0 out_of_step.chunks end × (end ≤ length (replicate {A = ℕ} 386 0)))
index_from_file_sound_example =
    index_from_file_sound bytes seek seek-SeeksForward (replicate 386 0) (omega arith)
      (zeroes_from 386) (opens 386) discriminator 4 63 63 64 (omega arith, omega arith) (λ b e. e)
      bytes_not_zero (start 386 4) out_of_step start_4 out_of_step-IsReached

-- The second worker has reached the end, and the first has not begun.
abbrev half_way : Making
half_way = run 4 1 (start 128 2)

half_way-IsReached : IsReached 128 2 start_2 half_way
unfolding started
half_way-IsReached =
    (run-IsReached 128 2 start_2 4 1 (start 128 2) (stay (start 128 2)) (omega arith)).0

half_way_on : half_way.result ≡ none
unfolding main_turns main_turn main_turn_with turns turn turn_in started new_worker count_produced
    produce made fail next below_int within_int min_int fill_buffer fill filled reported before
    next_in_buffer after_fill split scan add_byte rotate_left32 hash_of_rotated hash_of byte_at
    mix_window Words.is_boundary id_equal contents set_worker synced sync_with catch_up compare_with
    count_nulls empty_handed is_closed read_by behind_sync skip_zeroes moved_on null_chunks advance
    send_null null_behind end_of skip_next active is_empty accept behind_worker inc_accepted
    inc_produced new_null_chunk
half_way_on = refl

index_from_file_not_stuck_example :
    (s : Making) × Step bytes seek (new_null_chunk bytes 64) half_way s
index_from_file_not_stuck_example =
    index_from_file_not_stuck bytes seek seek-SeeksForward discriminator (zeroes_from 128) 128 2 63
      63 64 (omega arith, omega arith) (start 128 2) half_way start_2 half_way-IsReached half_way_on
