-- ===== src/Seeds/NullMatches.antt =====
-- About `LongestMatchWith` of nullseed.go.
use desync.Common.{
  ℕ, suc, ◌+◌, ◌-◌, ◌≤◌, ◌≡◌, refl, sym, ap, subst, ◌⊎◌, inl, inr, List, [], ◌∷◌, length, take, All,
  ◌==◌, Bool-cases, Option, some, none, arith, if-both, some_inj, ◌∙◌, ◌%◌, ◌^◌,
}
use desync.Chunk.Defs.{id_equal}
use desync.Chunk.Storage.{id_equal→eq}
use desync.Index.Defs.{IndexChunk}
use desync.Seeds.Defs.{
  SeedSegment, null_section, NullChunkSeed, at_limit, limit_of, last_end_of, null_run,
  null_longest_match, null_seed,
}
use desync.Stream.Defs.{ChunkId}
use desync.Seeds.Matches.{IsFaithful}

-- The run of null chunks at the start.
abbrev IsRun : ChunkId → ℕ → List IndexChunk → ℕ → Type 0
IsRun id n cs r =
    (k : ℕ) × (r ≡ n + k) × (k ≤ length cs) × All (λ (c : IndexChunk). c.id ≡ id) (take k cs)

null_run-IsRun :
    (limit n : ℕ) (id : ChunkId) (cs : List IndexChunk) → IsRun id n cs (null_run limit n id cs)
unfolding null_run
null_run-IsRun limit n id [] = (0, omega arith, omega arith, tt)
null_run-IsRun limit n id (c ∷ cs) =
    let stop : IsRun id n (c ∷ cs) n = (0, omega arith, omega arith, tt) in
    elim (Bool-cases (id_equal c.id id)) [
      | inr differ ↦ rw differ (if-both (IsRun id n (c ∷ cs)) (at_limit limit n) stop stop)
      | inl equal ↦
          let (k, count, fits, all) = null_run-IsRun limit (n + 1) id cs in
          rw equal (
            if-both (IsRun id n (c ∷ cs)) (at_limit limit n) stop
              (suc k, omega (arith, count), omega (arith, fits), (id_equal→eq c.id id equal, all)))
    ]

-- What the null seed answers.
null_longest_match_lem :
    (s : NullChunkSeed) (ts : List IndexChunk)
    → (null_longest_match s ts ≡ (0, none))
      ⊎ ((k from to : ℕ) × (null_longest_match s ts
            ≡ (k, some (null_section from to s.can_reflink)))
          × (k ≤ length ts)
          × All (λ (c : IndexChunk). c.id ≡ s.id) (take k ts))
unfolding null_longest_match
null_longest_match_lem s [] = inl refl
null_longest_match_lem s (c ∷ cs) =
    let (k, count, fits, all) = null_run-IsRun (limit_of s.can_reflink) 0 s.id (c ∷ cs) in
    let n_is : null_run (limit_of s.can_reflink) 0 s.id (c ∷ cs) ≡ k = omega (arith, count) in
    elim (Bool-cases (null_run (limit_of s.can_reflink) 0 s.id (c ∷ cs) == 0)) [
      | inl none_there ↦ inl (rw (null_longest_match, none_there) refl)
      | inr there ↦ inr (
        null_run (limit_of s.can_reflink) 0 s.id (c ∷ cs),
        c.start,
        last_end_of c (take (null_run (limit_of s.can_reflink) 0 s.id (c ∷ cs) - 1) cs) % 2 ^ 64,
        rw (null_longest_match, there) refl,
        omega (arith, count),
        subst (λ n. All (λ (d : IndexChunk). d.id ≡ s.id) (take n (c ∷ cs))) (sym n_is) all,
      )
    ]

-- The null seed fills the interface.
pub null_seed-IsFaithful : (s : NullChunkSeed) → IsFaithful s.id (null_seed s)
unfolding null_seed
null_seed-IsFaithful s = record {
  fits = λ ts. elim (null_longest_match_lem s ts) [
    | inl e ↦ rw e (omega arith)
    | inr (k, from, to, e, fits, all) ↦ rw e fits
  ];
  provides = λ ts m h. elim (null_longest_match_lem s ts) [
    | inl e ↦ cc
    | inr (k, from, to, e, fits, all) ↦
        let is_m : null_section from to s.can_reflink ≡ m =
          some_inj (sym (ap (λ (q : ℕ × Option SeedSegment). q.1) e) ∙ h) in
        rw (← is_m, e) all
  ];
}
