-- ===== src/Tests/Seeding.antt =====
-- Seeds, plans and the seed of the target over a few chunks.
use desync.Common.{
  ℕ, ◌≤◌, ◌≡◌, refl, List, [], ◌∷◌, length, replicate, All, some, true, false, inl, inr, arith,
}
use desync.Common.Outcome.{ok}
use desync.Index.Defs.{IndexChunk}
use desync.Seeds.Defs.{
  Seed, FileSeed, NullChunkSeed, new_index_seed, file_seed, null_seed, limit_of, max_match_from,
  file_longest_match,
}
use desync.Seeds.Longest.{new_index_seed_longest}
use desync.Seeds.Matches.{IsFaithful, file_seed-IsFaithful}
use desync.Seeds.NullMatches.{null_seed-IsFaithful}
use desync.Seeds.Plan.{IsPlan, plan-IsPlan}
use desync.Seeds.SelfSeed.{SelfSeed, new_self_seed}
use desync.Seeds.SelfSeed.Order.{add_all, add_all-new_self_seed}
use desync.Seeds.Sequencer.{IndexSegment, SeedSegmentCandidate, new_seed_sequencer, plan}

abbrev chunk_at : ℕ → ℕ → IndexChunk
chunk_at n start = record { id = replicate 32 n; start = start; size = 10 }

abbrev wanted : List IndexChunk
wanted = chunk_at 2 0 ∷ chunk_at 3 10 ∷ chunk_at 0 20 ∷ []

abbrev on_disk : List IndexChunk
on_disk = chunk_at 2 0 ∷ chunk_at 5 10 ∷ chunk_at 2 20 ∷ chunk_at 3 30 ∷ []

abbrev old_file : FileSeed
old_file = record {
  src_file = 1;
  chunks = on_disk;
  pos = λ id. 0 ∷ 2 ∷ [];
  can_reflink = true;
  is_invalid = false;
}

abbrev zeroes : NullChunkSeed
zeroes = record { id = replicate 32 0; can_reflink = false }

file_seed-IsFaithful_example : IsFaithful (replicate 32 0) (file_seed old_file)
file_seed-IsFaithful_example = file_seed-IsFaithful (replicate 32 0) old_file

new_index_seed_longest_example :
    length (max_match_from (new_index_seed 1 on_disk true) wanted 2 (limit_of true))
    ≤ (file_longest_match (new_index_seed 1 on_disk true) wanted).0
new_index_seed_longest_example = new_index_seed_longest 1 on_disk true wanted 2

abbrev both : List Seed
both = null_seed zeroes ∷ file_seed (new_index_seed 1 on_disk true) ∷ []

both-IsFaithful : All (IsFaithful (replicate 32 0)) both
both-IsFaithful = (
  null_seed-IsFaithful zeroes,
  (file_seed-IsFaithful (replicate 32 0) (new_index_seed 1 on_disk true), tt),
)

plan-IsPlan_example :
    (cs : List SeedSegmentCandidate) × (plan (new_seed_sequencer wanted both) ≡ some cs)
    × IsPlan (replicate 32 0) wanted 0 cs
plan-IsPlan_example =
    plan-IsPlan (replicate 32 0) (chunk_at 2 0) (chunk_at 3 10 ∷ chunk_at 0 20 ∷ []) both
      both-IsFaithful

abbrev front : IndexSegment
front = record { first = 0; last = 1 }

abbrev back : IndexSegment
back = record { first = 2; last = 2 }

add_all-new_self_seed_example :
    (s : SelfSeed) × (add_all (back ∷ front ∷ []) (new_self_seed 9 wanted false) ≡ ok s)
    × (s.written ≡ length wanted)
    × (s.chunks ≡ wanted)
    × (s.pos ≡ (new_index_seed 9 wanted false).pos)
add_all-new_self_seed_example =
    add_all-new_self_seed 9 wanted false (front ∷ back ∷ []) (back ∷ front ∷ [])
      (refl, omega arith, omega arith, (refl, omega arith, omega arith, refl))
      (inr (inl refl), (inl refl, tt)) (inr (inl refl), (inl refl, tt))
