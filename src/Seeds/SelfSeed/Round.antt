-- ===== src/Seeds/SelfSeed/Round.antt =====
-- About one `add` of selfseed.go.
use desync.Common.{
  ℕ, zero, suc, ◌+◌, ◌-◌, ◌≤◌, ◌<◌, ◌≡◌, refl, sym, ap, subst, ◌∙◌, List, [], ◌∷◌, length, take,
  drop, ltb, ◌==◌, true, false, Bool-cases, none, some, Option-cases, ◌⊎◌, inl, inr, arith,
}
use desync.Common.Outcome.{Outcome, ok}
use desync.Seeds.Defs.{positions_from}
use desync.Seeds.SelfSeed.{Entries, SelfSeed, lookup, delete, record_written, advance, add}
use desync.Seeds.SelfSeed.Laws.{
  lookup-delete_other, lookup-delete_same, length-delete_lt, positions_from-further,
}
use desync.Seeds.Sequencer.{IndexSegment}
use desync.Seeds.SelfSeed.Tiling.{IsTiling, IsIn, Runs, IsBoundary, tiling-Runs}

-- The seed while segments of a plan are added to it.
pub record IsSelf (plan : List IndexSegment) (added : List IndexSegment) (s : SelfSeed)
    : Type 0 where
  pub positions : s.pos ≡ positions_from 0 (take s.written s.chunks) (λ id. [])
  pub boundary : IsBoundary (length s.chunks) plan s.written
  pub from_plan : (k e : ℕ) → lookup s.cache k ≡ some e → Runs plan k e
  pub kept :
      (g : IndexSegment)
      → IsIn g added
      → (g.first < s.written) ⊎ ((e : ℕ) × (lookup s.cache g.first ≡ some e))

-- The seed behind a round of the loop.
abbrev advanced : ℕ → SelfSeed → SelfSeed
advanced e s = record s {
  pos = positions_from s.written (take (e - s.written) (drop s.written s.chunks)) s.pos;
  cache = delete s.written s.cache;
  written = e;
}

advance_lem :
    (fuel : ℕ) (s : SelfSeed) (e : ℕ)
    → lookup s.cache s.written ≡ some e
    → s.written < e
    → e ≤ length s.chunks
    → advance (suc fuel) s ≡ advance fuel (advanced e s)
unfolding advance record_written
advance_lem fuel s e found up fits =
    let forward : ltb s.written e ≡ true = ground arith in
    let within : ltb (length s.chunks) e ≡ false = ground arith in
    rw (advance, found) (rw (record_written, forward, within) refl)

advance_round :
    (plan added : List IndexSegment) (s : SelfSeed) (e : ℕ)
    → IsTiling (length s.chunks) 0 plan
    → IsSelf plan added s
    → lookup s.cache s.written ≡ some e
    → IsSelf plan added (advanced e s)
advance_round plan added s e tiles self found =
    let (up, fits, boundary) =
      tiling-Runs (length s.chunks) 0 plan s.written e tiles (self.from_plan s.written e found) in
    record {
      positions =
          ap (positions_from s.written (take (e - s.written) (drop s.written s.chunks)))
            self.positions
          ∙ positions_from-further s.written e s.chunks (λ id. []) (omega arith) fits;
      boundary = boundary;
      from_plan = λ k f there. elim (Bool-cases (s.written == k)) [
        | inl same ↦
            let k_is : s.written ≡ k = ground (arith, same) in
            let gone : lookup (delete s.written s.cache) k ≡ none =
              subst (λ j. lookup (delete s.written s.cache) j ≡ none) k_is
                (lookup-delete_same s.cache s.written) in
            cc
        | inr differ ↦
            self.from_plan k f
              (sym (lookup-delete_other s.cache s.written k (ground (arith, differ))) ∙ there)
      ];
      kept = λ g isin. elim (self.kept g isin) [
        | inl before ↦ inl (omega arith)
        | inr (f, there) ↦ elim (Bool-cases (s.written == g.first)) [
          | inl same ↦ inl (ground (arith, up))
          | inr differ ↦
              inr
                (f, lookup-delete_other s.cache s.written g.first (ground (arith, differ)) ∙ there)
        ]
      ];
    }

-- The loop ends, with no segment left that starts where the written part ends.
abbrev pub Settles : List IndexSegment → List IndexSegment → SelfSeed → Outcome ⊥ SelfSeed → Type 0
Settles plan added s o =
    (s' : SelfSeed) × (o ≡ ok s')
    × (s'.chunks ≡ s.chunks)
    × (lookup s'.cache s'.written ≡ none)
    × IsSelf plan added s'

advance-Settles :
    (fuel : ℕ) (plan added : List IndexSegment) (s : SelfSeed)
    → IsTiling (length s.chunks) 0 plan
    → IsSelf plan added s
    → length s.cache < fuel
    → Settles plan added s (advance fuel s)
unfolding advance record_written
advance-Settles zero plan added s tiles self enough = let bad : ⊥ = omega arith in elim bad [ ]
advance-Settles (suc fuel) plan added s tiles self enough =
    elim (Option-cases (lookup s.cache s.written)) [
      | inl nothing ↦ (s, rw (advance, nothing) refl, refl, nothing, self)
      | inr (e, found) ↦
          let (up, fits, boundary) =
            tiling-Runs (length s.chunks) 0 plan s.written e tiles
              (self.from_plan s.written e found) in
          let (s', ends, same, settled, self') =
            advance-Settles fuel plan added (advanced e s) tiles
              (advance_round plan added s e tiles self found)
              (omega (arith, length-delete_lt s.cache s.written e found)) in
          (s', advance_lem fuel s e found up fits ∙ ends, same, settled, self')
    ]

lookup_here : (i v k : ℕ) (cache : Entries) → k ≡ i → lookup ((i, v) ∷ cache) k ≡ some v
unfolding lookup
lookup_here i v k cache h = ground arith

lookup_behind :
    (i v k : ℕ) (cache : Entries) (e : ℕ)
    → lookup cache k ≡ some e
    → (x : ℕ) × (lookup ((i, v) ∷ cache) k ≡ some x)
unfolding lookup
lookup_behind i v k cache e found = elim (Bool-cases (i == k)) [
  | inl same ↦ (v, rw (lookup, same) refl)
  | inr differ ↦ (e, rw (lookup, differ) found)
]

first_entry :
    (i v k e : ℕ) (cache : Entries)
    → (i == k) ≡ true
    → lookup ((i, v + 1) ∷ cache) k ≡ some e
    → suc v ≡ e
unfolding lookup
first_entry i v k e cache same found = ground arith

-- The invariant holds before the loop of `add`.
remember :
    (plan added : List IndexSegment) (g : IndexSegment) (s : SelfSeed)
    → IsIn g plan
    → IsSelf plan added s
    → IsSelf plan (g ∷ added) record s { cache = (g.first, g.last + 1) ∷ s.cache }
unfolding lookup
remember plan added g s isin self = record {
  positions = self.positions;
  boundary = self.boundary;
  from_plan = λ k e there. elim (Bool-cases (g.first == k)) [
    | inl same ↦ (g, isin, ground (arith, same), first_entry g.first g.last k e s.cache same there)
    | inr differ ↦ self.from_plan k e (rw differ at there)
  ];
  kept = λ h there. elim there [
    | inl here ↦ inr (
      g.last + 1,
      lookup_here g.first (g.last + 1) h.first s.cache (ap (λ (x : IndexSegment). x.first) here),
    )
    | inr before ↦ elim (self.kept h before) [
      | inl done ↦ inl done
      | inr (e, found) ↦ inr (lookup_behind g.first (g.last + 1) h.first s.cache e found)
    ]
  ];
}

pub add-Settles :
    (plan added : List IndexSegment) (g : IndexSegment) (s : SelfSeed)
    → IsTiling (length s.chunks) 0 plan
    → IsIn g plan
    → IsSelf plan added s
    → Settles plan (g ∷ added) s (add g s)
unfolding add
add-Settles plan added g s tiles isin self =
    let s1 : SelfSeed = record s { cache = (g.first, g.last + 1) ∷ s.cache } in
    advance-Settles (suc (suc (length s.cache))) plan (g ∷ added) s1 tiles
      (remember plan added g s isin self) (omega arith)
