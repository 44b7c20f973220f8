-- ===== src/Seeds/Longest.antt =====
-- About the positions that `NewIndexSeed` of fileseed.go collects, and the match that is found from
-- them.
use desync.Common.{
  IsAmong, All-IsAmong, ℕ, zero, suc, ◌+◌, ◌≤◌, ◌≡◌, refl, sym, subst, ◌∙◌, ◌⊎◌, inl, inr, List, [],
  ◌∷◌, ◌++◌, length, drop, ◌==◌, Bool, true, false, Bool-cases, arith,
}
use desync.Chunk.Defs.{id_equal}
use desync.Chunk.Storage.{id_equal→eq, id_equal_refl}
use desync.Index.Defs.{IndexChunk}
use desync.Seeds.Defs.{
  Positions, add_position, positions_from, FileSeed, new_index_seed, match_length, max_match_from,
  best_match, limit_of, match_at, file_longest_match,
}
use desync.Seeds.Matches.{best_match-IsLongest, List-cases}
use desync.Stream.Defs.{ChunkId}

IsAmong-append : (p : ℕ) (qs rs : List ℕ) → IsAmong p qs ⊎ IsAmong p rs → IsAmong p (qs ++ rs)
IsAmong-append p [] rs (inl there) = elim there [ ]
IsAmong-append p [] rs (inr there) = there
IsAmong-append p (q ∷ qs) rs (inl (inl here)) = inl here
IsAmong-append p (q ∷ qs) rs (inl (inr there)) = inr (IsAmong-append p qs rs (inl there))
IsAmong-append p (q ∷ qs) rs (inr there) = inr (IsAmong-append p qs rs (inr there))

-- A position stays in the map.
add_position-keeps :
    (id j : ChunkId) (i p : ℕ) (pos : Positions)
    → IsAmong p (pos j)
    → IsAmong p (add_position id i pos j)
unfolding add_position
add_position-keeps id j i p pos h = elim (Bool-cases (id_equal id j)) [
  | inl same ↦ rw (add_position, same) (IsAmong-append p (pos j) (i ∷ []) (inl h))
  | inr other ↦ rw (add_position, other) h
]

positions_from-keeps :
    (i : ℕ) (chunks : List IndexChunk) (pos : Positions) (j : ChunkId) (p : ℕ)
    → IsAmong p (pos j)
    → IsAmong p (positions_from i chunks pos j)
unfolding positions_from
positions_from-keeps i [] pos j p h = h
positions_from-keeps i (c ∷ chunks) pos j p h =
    positions_from-keeps (i + 1) chunks (add_position c.id i pos) j p
      (add_position-keeps c.id j i p pos h)

head_of : {x y : IndexChunk} {xs ys : List IndexChunk} → x ∷ xs ≡ y ∷ ys → x ≡ y
head_of e = cc

-- Every position of a chunk with the id is collected.
positions_from_complete :
    (i : ℕ) (chunks : List IndexChunk) (pos : Positions) (p : ℕ) (d : IndexChunk)
    (ds : List IndexChunk)
    → drop p chunks ≡ d ∷ ds
    → IsAmong (i + p) (positions_from i chunks pos d.id)
unfolding positions_from add_position
positions_from_complete i [] pos zero d ds e = cc
positions_from_complete i [] pos (suc p) d ds e = cc
positions_from_complete i (c ∷ chunks) pos zero d ds e =
    let first : c ≡ d = head_of e in
    let here : IsAmong i (add_position d.id i pos d.id) =
      rw (add_position, id_equal_refl d.id)
        (IsAmong-append i (pos d.id) (i ∷ []) (inr (inl refl))) in
    subst
      (λ (x : IndexChunk).
        IsAmong (i + 0) (positions_from (i + 1) chunks (add_position x.id i pos) d.id))
      (sym first)
      (subst (λ q. IsAmong q (positions_from (i + 1) chunks (add_position d.id i pos) d.id))
        (omega arith) (positions_from-keeps (i + 1) chunks (add_position d.id i pos) d.id i here))
positions_from_complete i (c ∷ chunks) pos (suc p) d ds e =
    subst (λ q. IsAmong q (positions_from (i + 1) chunks (add_position c.id i pos) d.id))
      (omega arith) (positions_from_complete (i + 1) chunks (add_position c.id i pos) p d ds e)

match_length-other :
    (limit : ℕ) (c d : IndexChunk) (cs ds : List IndexChunk)
    → id_equal c.id d.id ≡ false
    → match_length limit 0 (c ∷ cs) (d ∷ ds) ≡ 0
unfolding match_length
match_length-other limit c d cs ds h = ground arith

-- No match at a position of another chunk.
max_match_from-other :
    (s : FileSeed) (c : IndexChunk) (cs : List IndexChunk) (p limit : ℕ)
    → ((d : IndexChunk) (ds : List IndexChunk)
        → drop p s.chunks ≡ d ∷ ds
        → id_equal c.id d.id ≡ false)
    → length (max_match_from s (c ∷ cs) p limit) ≡ 0
unfolding max_match_from match_length
max_match_from-other s c cs p limit differ = elim (List-cases (drop p s.chunks)) [
  | inl behind ↦ rw behind refl
  | inr (d, ds, at) ↦
      rw (max_match_from, at, match_length-other limit c d cs ds (differ d ds at)) refl
]

-- A position of the seed with a match is one of those that are tried.
match-or-IsAmong :
    (file : ℕ) (chunks : List IndexChunk) (reflink : Bool) (c : IndexChunk) (cs : List IndexChunk)
    (p limit : ℕ)
    → (length (max_match_from (new_index_seed file chunks reflink) (c ∷ cs) p limit) ≡ 0)
      ⊎ IsAmong p ((new_index_seed file chunks reflink).pos c.id)
unfolding new_index_seed
match-or-IsAmong file chunks reflink c cs p limit =
    let s = new_index_seed file chunks reflink in
    elim (List-cases (drop p chunks)) [
      | inl behind ↦ inl (max_match_from-other s c cs p limit (λ d ds at. cc))
      | inr (d, ds, at) ↦ elim (Bool-cases (id_equal c.id d.id)) [
        | inl same ↦ inr (
            subst (λ j. IsAmong p (positions_from 0 chunks (λ id. []) j))
              (sym (id_equal→eq c.id d.id same))
              (subst (λ q. IsAmong q (positions_from 0 chunks (λ id. []) d.id)) (omega arith)
                (positions_from_complete 0 chunks (λ id. []) p d ds at)))
        | inr differ ↦ inl (
            max_match_from-other s c cs p limit (λ d' ds' at'.
              subst (λ (x : IndexChunk). id_equal c.id x.id ≡ false) (head_of (sym at ∙ at'))
                differ))
      ]
    ]

max_match_from-nil : (s : FileSeed) (p limit : ℕ) → length (max_match_from s [] p limit) ≡ 0
unfolding max_match_from match_length
max_match_from-nil s p limit = refl

no_positions :
    (chunks : List IndexChunk) (j : ChunkId) (p : ℕ)
    → (length chunks == 0) ≡ true
    → IsAmong p (positions_from 0 chunks (λ id. []) j)
    → ⊥
unfolding positions_from
no_positions [] j p h there = there
no_positions (c ∷ cs) j p h there = ground (arith, h)

-- The match is as long as the one at each position that is tried.
at_positions :
    (file : ℕ) (chunks : List IndexChunk) (reflink : Bool) (c : IndexChunk) (cs : List IndexChunk)
    (p : ℕ)
    → (length chunks == 0) ≡ false
    → IsAmong p ((new_index_seed file chunks reflink).pos c.id)
    → length (max_match_from (new_index_seed file chunks reflink) (c ∷ cs) p (limit_of reflink))
      ≤ (file_longest_match (new_index_seed file chunks reflink) (c ∷ cs)).0
unfolding file_longest_match match_at new_index_seed
at_positions file chunks reflink c cs p usable among =
    let s = new_index_seed file chunks reflink in
    let limit = limit_of reflink in
    let (lo, every) = best_match-IsLongest s (c ∷ cs) limit (s.pos c.id) [] in
    let holds : length (max_match_from s (c ∷ cs) p limit)
        ≤ length (best_match s (c ∷ cs) limit (s.pos c.id) []) =
      All-IsAmong
        (λ r.
          length (max_match_from s (c ∷ cs) r limit)
          ≤ length (best_match s (c ∷ cs) limit (s.pos c.id) []))
        (s.pos c.id) p every among in
    elim (List-cases (s.pos c.id)) [
      | inl nowhere ↦ elim (subst (IsAmong p) nowhere among) [ ]
      | inr (q, qs, somewhere) ↦
          rw (file_longest_match, usable, match_at, somewhere) (rw somewhere at holds)
    ]

-- The match that a new file seed finds is at least as long as the one at any position `p` of its
-- index, up to the same limit.
pub new_index_seed_longest :
    (file : ℕ) (chunks : List IndexChunk) (reflink : Bool) (ts : List IndexChunk) (p : ℕ)
    → length (max_match_from (new_index_seed file chunks reflink) ts p (limit_of reflink))
      ≤ (file_longest_match (new_index_seed file chunks reflink) ts).0
unfolding new_index_seed file_longest_match match_at
new_index_seed_longest file chunks reflink [] p =
    omega (arith, max_match_from-nil (new_index_seed file chunks reflink) p (limit_of reflink))
new_index_seed_longest file chunks reflink (c ∷ cs) p =
    elim (match-or-IsAmong file chunks reflink c cs p (limit_of reflink)) [
      | inl nothing ↦ omega (arith, nothing)
      | inr among ↦ elim (Bool-cases (length chunks == 0)) [
        | inl empty ↦ elim (no_positions chunks c.id p empty among) [ ]
        | inr usable ↦ at_positions file chunks reflink c cs p usable among
      ]
    ]
