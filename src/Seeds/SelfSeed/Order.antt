-- ===== src/Seeds/SelfSeed/Order.antt =====
-- About `add` of selfseed.go when the segments of a plan are written in any order.
use desync.Common.{
  ℕ, ◌≡◌, refl, sym, ap, subst, ◌∙◌, List, [], ◌∷◌, length, take, All, Bool, none, ◌⊎◌, inl, inr,
  arith,
}
use desync.Common.Outcome.{Outcome, ok, ◌>>=◌}
use desync.Index.Defs.{IndexChunk}
use desync.Seeds.Defs.{positions_from, new_index_seed}
use desync.Seeds.SelfSeed.{SelfSeed, lookup, add, new_self_seed}
use desync.Seeds.Sequencer.{IndexSegment}
use desync.Seeds.SelfSeed.Round.{IsSelf, add-Settles}
use desync.Seeds.SelfSeed.Tiling.{IsTiling, IsIn, tiling-IsBoundary}

-- Segments written one after another.
unfoldable pub add_all : List IndexSegment → SelfSeed → Outcome ⊥ SelfSeed
add_all [] s = ok s
add_all (g ∷ gs) s = add g s >>= add_all gs

-- What lasts while segments of the plan are added.
abbrev IsReady : List IndexSegment → List IndexSegment → SelfSeed → Type 0
IsReady plan added s = (lookup s.cache s.written ≡ none) × IsSelf plan added s

add_all-IsReady :
    (plan added gs : List IndexSegment) (s : SelfSeed)
    → IsTiling (length s.chunks) 0 plan
    → All (λ (g : IndexSegment). IsIn g plan) gs
    → IsReady plan added s
    → (added' : List IndexSegment) × (s' : SelfSeed) × (add_all gs s ≡ ok s')
      × (s'.chunks ≡ s.chunks)
      × IsReady plan added' s'
      × ((g : IndexSegment) → IsIn g gs ⊎ IsIn g added → IsIn g added')
unfolding add_all
add_all-IsReady plan added [] s tiles every ready = (
  added,
  s,
  refl,
  refl,
  ready,
  λ g there. elim there [ inl none_there ↦ elim none_there [ ] | inr isin ↦ isin ],
)
add_all-IsReady plan added (g ∷ gs) s tiles (isin, every) (settled, self) =
    let (s1, ends, same, settled1, self1) = add-Settles plan added g s tiles isin self in
    let (added', s', ends', same', ready', all) =
      add_all-IsReady plan (g ∷ added) gs s1
        (subst (λ (cs : List IndexChunk). IsTiling (length cs) 0 plan) (sym same) tiles) every
        (settled1, self1) in
    (
      added',
      s',
      rw (add_all, ends) ends',
      same' ∙ same,
      ready',
      λ h there. elim there [
        | inl (inl here) ↦ all h (inr (inl here))
        | inl (inr later) ↦ all h (inl later)
        | inr before ↦ all h (inr (inr before))
      ],
    )

All-IsIn :
    (P : IndexSegment → Type 0) (gs : List IndexSegment) (g : IndexSegment)
    → All P gs
    → IsIn g gs
    → P g
All-IsIn P [] g every there = elim there [ ]
All-IsIn P (h ∷ hs) g (holds, every) (inl here) = subst P (sym here) holds
All-IsIn P (h ∷ hs) g (holds, every) (inr there) = All-IsIn P hs g every there

take-length : (xs : List IndexChunk) → take (length xs) xs ≡ xs
take-length [] = refl
take-length (x ∷ xs) = ap (λ l. x ∷ l) (take-length xs)

new_self_seed-IsReady :
    (file : ℕ) (chunks : List IndexChunk) (clone : Bool) (plan : List IndexSegment)
    → IsTiling (length chunks) 0 plan
    → IsReady plan [] (new_self_seed file chunks clone)
unfolding new_self_seed lookup positions_from
new_self_seed-IsReady file chunks clone plan tiles = (
  refl,
  record {
    positions = refl;
    boundary = tiling-IsBoundary (length chunks) 0 plan tiles;
    from_plan = λ k e there. cc;
    kept = λ g there. elim there [ ];
  },
)

-- The whole file is written once every segment of the plan is.
IsReady-written :
    (plan added : List IndexSegment) (s : SelfSeed)
    → IsReady plan added s
    → ((g : IndexSegment) → IsIn g plan → IsIn g added)
    → s.written ≡ length s.chunks
IsReady-written plan added s (settled, self) all = elim self.boundary [
  | inl ends ↦ ends
  | inr (e, (g, there, from, to)) ↦ elim (self.kept g (all g there)) [
    | inl before ↦ ground (arith, from)
    | inr (f, found) ↦
        let none_there : lookup s.cache g.first ≡ none =
          subst (λ k. lookup s.cache k ≡ none) (sym from) settled in
        cc
  ]
]

-- The segments of `plan` follow one another over all chunks of the index, and `gs` are segments
-- of it, each at least once. Then, whatever the order of `gs`, `add` ends each time without a
-- panic, and the seed has every chunk of the index as written, with the positions that a seed
-- made from the whole index has.
pub add_all-new_self_seed :
    (file : ℕ) (chunks : List IndexChunk) (clone : Bool) (plan gs : List IndexSegment)
    → IsTiling (length chunks) 0 plan
    → All (λ (g : IndexSegment). IsIn g plan) gs
    → All (λ (g : IndexSegment). IsIn g gs) plan
    → (s : SelfSeed) × (add_all gs (new_self_seed file chunks clone) ≡ ok s)
      × (s.written ≡ length chunks)
      × (s.chunks ≡ chunks)
      × (s.pos ≡ (new_index_seed file chunks clone).pos)
unfolding new_index_seed new_self_seed
add_all-new_self_seed file chunks clone plan gs tiles from_plan every =
    let (added, s, ends, same, ready, all) =
      add_all-IsReady plan [] gs (new_self_seed file chunks clone) tiles from_plan
        (new_self_seed-IsReady file chunks clone plan tiles) in
    let whole : s.written ≡ length s.chunks =
      IsReady-written plan added s ready
        (λ g there. all g (inl (All-IsIn (λ h. IsIn h gs) plan g every there))) in
    let same' : s.chunks ≡ chunks = same in
    (
      s,
      ends,
      whole ∙ ap (λ (cs : List IndexChunk). length cs) same',
      same',
      (ready.1).positions
          ∙ ap (λ n. positions_from 0 (take n s.chunks) (λ id. [])) whole
          ∙ ap (λ cs. positions_from 0 cs (λ id. [])) (take-length s.chunks ∙ same'),
    )
