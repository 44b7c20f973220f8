-- ===== src/Seeds/Matches.antt =====
-- About `LongestMatchWith` of fileseed.go: what a match is.
use desync.Common.{
  ℕ, suc, ◌+◌, ◌≤◌, ◌≡◌, ◌≢◌, refl, sym, ap, subst, ◌⊎◌, inl, inr, List, [], ◌∷◌, length, take,
  drop, All, ◌==◌, true, Bool-cases, Option, some, none, length-take, arith, ◌||◌, if-both,
  some_inj, ◌∙◌,
}
use desync.Chunk.Defs.{id_equal}
use desync.Chunk.Storage.{id_equal→eq}
use desync.Index.Defs.{IndexChunk}
use desync.Seeds.Defs.{
  Seed, SeedSegment, file_segment, null_section, FileSeed, at_limit, match_length, max_match_from,
  longer, best_match, limit_of, match_at, file_longest_match, file_seed,
}
use desync.Stream.Defs.{ChunkId}

-- Two lists of chunks with the same ids.
abbrev pub SameIds : List IndexChunk → List IndexChunk → Type 0
SameIds [] [] = Unit
SameIds [] (d ∷ ds) = ⊥
SameIds (c ∷ cs) [] = ⊥
SameIds (c ∷ cs) (d ∷ ds) = (c.id ≡ d.id) × SameIds cs ds

-- The segment holds the chunks: chunks of the seed with the same ids, or zeroes for null chunks.
abbrev pub Provides : ChunkId → SeedSegment → List IndexChunk → Type 0
Provides null (file_segment file cs reflink) ts = SameIds cs ts
Provides null (null_section from to reflink) ts = All (λ (c : IndexChunk). c.id ≡ null) ts

-- What the sequencer relies on: a match is a segment that holds as many of the chunks, from the first
-- one on, as it says.
pub record IsFaithful (null : ChunkId) (s : Seed) : Type 0 where
  pub fits : (ts : List IndexChunk) → (s.longest_match_with ts).0 ≤ length ts
  pub provides :
      (ts : List IndexChunk) (m : SeedSegment)
      → (s.longest_match_with ts).1 ≡ some m
      → Provides null m (take (s.longest_match_with ts).0 ts)

-- The match at one position.
pub record IsCounted (limit sp : ℕ) (cs ds : List IndexChunk) (k : ℕ) : Type 0 where
  pub count : match_length limit sp cs ds ≡ sp + k
  pub in_target : k ≤ length cs
  pub in_source : k ≤ length ds
  pub same : SameIds (take k ds) (take k cs)

match_length-IsCounted :
    (limit sp : ℕ) (cs ds : List IndexChunk) → (k : ℕ) × IsCounted limit sp cs ds k
unfolding match_length
match_length-IsCounted limit sp [] ds =
    (0, record { count = omega arith; in_target = omega arith; in_source = omega arith; same = tt })
match_length-IsCounted limit sp (c ∷ cs) [] =
    (0, record { count = omega arith; in_target = omega arith; in_source = omega arith; same = tt })
match_length-IsCounted limit sp (c ∷ cs) (d ∷ ds) = elim (Bool-cases (at_limit limit sp)) [
  | inl full ↦ (
    0,
    record {
      count = rw (match_length, full) (omega arith);
      in_target = omega arith;
      in_source = omega arith;
      same = tt;
    },
  )
  | inr room ↦ elim (Bool-cases (id_equal c.id d.id)) [
    | inr differ ↦ (
      0,
      record {
        count = rw (match_length, room, differ) (omega arith);
        in_target = omega arith;
        in_source = omega arith;
        same = tt;
      },
    )
    | inl equal ↦
        let (k, m) = match_length-IsCounted limit (sp + 1) cs ds in
        (
          suc k,
          record {
            count = rw (match_length, room, equal) (omega (arith, m.count));
            in_target = omega (arith, m.in_target);
            in_source = omega (arith, m.in_source);
            same = (sym (id_equal→eq c.id d.id equal), m.same);
          },
        )
  ]
]

match_length-le :
    (limit sp : ℕ) (cs ds : List IndexChunk)
    → limit ≢ 0
    → sp ≤ limit
    → match_length limit sp cs ds ≤ limit
unfolding match_length at_limit
match_length-le limit sp [] ds ne h = h
match_length-le limit sp (c ∷ cs) [] ne h = h
match_length-le limit sp (c ∷ cs) (d ∷ ds) ne h = elim (Bool-cases (sp == limit)) [
  | inl e ↦ ground arith
  | inr e ↦ ground (arith, match_length-le limit (sp + 1) cs ds ne)
]

pub List-cases :
    {A : Type 0} (xs : List A) → (xs ≡ []) ⊎ ((x : A) × (rest : List A) × (xs ≡ x ∷ rest))
List-cases [] = inl refl
List-cases (x ∷ rest) = inr (x, rest, refl)

-- A list of chunks of the seed that match the first chunks of the target.
abbrev pub Matches : List IndexChunk → List IndexChunk → Type 0
Matches ts m = (length m ≤ length ts) × SameIds m (take (length m) ts)

max_match_from-Matches :
    (s : FileSeed) (ts : List IndexChunk) (p limit : ℕ) → Matches ts (max_match_from s ts p limit)
unfolding max_match_from
max_match_from-Matches s ts p limit =
    let (k, m) = match_length-IsCounted limit 0 ts (drop p s.chunks) in
    let n : match_length limit 0 ts (drop p s.chunks) ≡ k = omega (arith, m.count) in
    let size : length (take k (drop p s.chunks)) ≡ k =
      omega (arith, length-take k (drop p s.chunks), m.in_source) in
    rw (n, size) (m.in_target, m.same)

longer-le :
    (found m : List IndexChunk)
    → (length found ≤ length (longer found m)) × (length m ≤ length (longer found m))
unfolding longer
longer-le found m = ground arith

pub best_match-Matches :
    (s : FileSeed) (ts : List IndexChunk) (limit : ℕ) (ps : List ℕ) (found : List IndexChunk)
    → Matches ts found
    → Matches ts (best_match s ts limit ps found)
unfolding best_match longer
best_match-Matches s ts limit [] found h = h
best_match-Matches s ts limit (p ∷ ps) found h =
    let found' = longer found (max_match_from s ts p limit) in
    let h' : Matches ts found' = if-both (Matches ts) _ (max_match_from-Matches s ts p limit) h in
    if-both (Matches ts) (at_limit limit (length found')) h'
      (best_match-Matches s ts limit ps found' h')

-- A match is at least as long as the one at each of the positions.
abbrev pub IsLongest : FileSeed → List IndexChunk → ℕ → List ℕ → List IndexChunk → Type 0
IsLongest s ts limit ps found =
    All (λ (p : ℕ). length (max_match_from s ts p limit) ≤ length found) ps

IsLongest-le :
    (s : FileSeed) (ts : List IndexChunk) (limit : ℕ) (ps : List ℕ) (found : List IndexChunk)
    → limit ≢ 0
    → limit ≤ length found
    → IsLongest s ts limit ps found
unfolding max_match_from
IsLongest-le s ts limit [] found ne h = tt
IsLongest-le s ts limit (p ∷ ps) found ne h = (
  omega (
    arith,
    match_length-le limit 0 ts (drop p s.chunks) ne (omega arith),
    length-take (match_length limit 0 ts (drop p s.chunks)) (drop p s.chunks),
  ),
  IsLongest-le s ts limit ps found ne h,
)

at_limit-eq : (limit n : ℕ) → at_limit limit n ≡ true → (limit ≢ 0) × (n ≡ limit)
unfolding at_limit
at_limit-eq limit n h = (λ z. ground arith, ground arith)

pub best_match-IsLongest :
    (s : FileSeed) (ts : List IndexChunk) (limit : ℕ) (ps : List ℕ) (found : List IndexChunk)
    → (length found ≤ length (best_match s ts limit ps found))
      × IsLongest s ts limit ps (best_match s ts limit ps found)
unfolding best_match
best_match-IsLongest s ts limit [] found = (omega arith, tt)
best_match-IsLongest s ts limit (p ∷ ps) found =
    let m = max_match_from s ts p limit in
    let (lo, hi) = longer-le found m in
    let Better : List IndexChunk → Type 0 =
      λ b. (length found ≤ length b) × IsLongest s ts limit (p ∷ ps) b in
    elim (Bool-cases (at_limit limit (length (longer found m)))) [
      | inl full ↦
          let (ne, e) = at_limit-eq limit (length (longer found m)) full in
          let here : best_match s ts limit (p ∷ ps) found ≡ longer found m =
            rw (best_match, full) refl in
          subst Better (sym here)
            (lo, (hi, IsLongest-le s ts limit ps (longer found m) ne (omega arith)))
      | inr room ↦
          let (up, every) = best_match-IsLongest s ts limit ps (longer found m) in
          let later : best_match s ts limit (p ∷ ps) found
              ≡ best_match s ts limit ps (longer found m) =
            rw (best_match, room) refl in
          subst Better (sym later) (omega arith, (omega arith, every))
    ]

-- What the seed answers: no match, or chunks of its file that match and are the most it has.
pub file_longest_match_lem :
    (s : FileSeed) (ts : List IndexChunk)
    → (file_longest_match s ts ≡ (0, none))
      ⊎ ((c : IndexChunk) × (rest found : List IndexChunk) × (ts ≡ c ∷ rest)
          × (file_longest_match s ts
              ≡ (length found, some (file_segment s.src_file found s.can_reflink)))
          × (length found ≤ length ts)
          × SameIds found (take (length found) ts)
          × IsLongest s ts (limit_of s.can_reflink) (s.pos c.id) found)
unfolding file_longest_match match_at
file_longest_match_lem s [] = inl refl
file_longest_match_lem s (c ∷ chunks) = elim (Bool-cases (length s.chunks == 0 || s.is_invalid)) [
  | inl unusable ↦ inl (rw (file_longest_match, unusable) refl)
  | inr usable ↦ elim (List-cases (s.pos c.id)) [
    | inl nowhere ↦ inl (rw (file_longest_match, usable, match_at, nowhere) refl)
    | inr (p, ps, somewhere) ↦
        let found = best_match s (c ∷ chunks) (limit_of s.can_reflink) (s.pos c.id) [] in
        let (fits, same) =
          best_match-Matches s (c ∷ chunks) (limit_of s.can_reflink) (s.pos c.id) []
            (omega arith, tt) in
        let (lo, every) =
          best_match-IsLongest s (c ∷ chunks) (limit_of s.can_reflink) (s.pos c.id) [] in
        inr (
          c,
          chunks,
          found,
          refl,
          rw (file_longest_match, usable, match_at, somewhere) refl,
          fits,
          same,
          every,
        )
  ]
]

-- The match of a file seed is not longer than the chunks asked for, and its segment has the ids
-- of as many of them, from the first one on, as the match says.
pub file_seed-IsFaithful : (null : ChunkId) (s : FileSeed) → IsFaithful null (file_seed s)
unfolding file_seed
file_seed-IsFaithful null s = record {
  fits = λ ts. elim (file_longest_match_lem s ts) [
    | inl e ↦ rw e (omega arith)
    | inr (c, rest, found, at, e, fits, same, every) ↦ rw e fits
  ];
  provides = λ ts m h. elim (file_longest_match_lem s ts) [
    | inl e ↦ cc
    | inr (c, rest, found, at, e, fits, same, every) ↦
        let is_m : file_segment s.src_file found s.can_reflink ≡ m =
          some_inj (sym (ap (λ (q : ℕ × Option SeedSegment). q.1) e) ∙ h) in
        rw (← is_m, e) same
  ];
}
