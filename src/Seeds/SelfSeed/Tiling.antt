-- ===== src/Seeds/SelfSeed/Tiling.antt =====
-- About segments that follow one another over an index.
use desync.Common.{ℕ, suc, ◌≤◌, ◌<◌, ◌≡◌, refl, ap, subst, List, [], ◌∷◌, ◌⊎◌, inl, inr, arith}
use desync.Seeds.Sequencer.{IndexSegment}

-- Segments from a position on to the end of the index.
abbrev pub IsTiling : ℕ → ℕ → List IndexSegment → Type 0
IsTiling n cur [] = cur ≡ n
IsTiling n cur (g ∷ gs) =
    (g.first ≡ cur) × (cur ≤ g.last) × (g.last < n) × IsTiling n (suc g.last) gs

abbrev pub IsIn : IndexSegment → List IndexSegment → Type 0
IsIn g [] = ⊥
IsIn g (h ∷ hs) = (g ≡ h) ⊎ IsIn g hs

-- A segment of the plan from one position to before another.
abbrev pub Runs : List IndexSegment → ℕ → ℕ → Type 0
Runs plan k e = (g : IndexSegment) × IsIn g plan × (g.first ≡ k) × (suc g.last ≡ e)

-- The end of the index, or the start of a segment.
abbrev pub IsBoundary : ℕ → List IndexSegment → ℕ → Type 0
IsBoundary n plan k = (k ≡ n) ⊎ ((e : ℕ) × Runs plan k e)

pub tiling-IsBoundary :
    (n cur : ℕ) (plan : List IndexSegment) → IsTiling n cur plan → IsBoundary n plan cur
tiling-IsBoundary n cur [] h = inl h
tiling-IsBoundary n cur (g ∷ gs) (at, le, lt, rest) = inr (suc g.last, (g, inl refl, at, refl))

more-IsBoundary :
    (n : ℕ) (g : IndexSegment) (plan : List IndexSegment) (k : ℕ)
    → IsBoundary n plan k
    → IsBoundary n (g ∷ plan) k
more-IsBoundary n g plan k (inl e) = inl e
more-IsBoundary n g plan k (inr (e, (h, there, from, to))) = inr (e, (h, inr there, from, to))

-- A segment of a tiling is not empty, and ends at the start of another or with the index.
pub tiling-Runs :
    (n cur : ℕ) (plan : List IndexSegment) (k e : ℕ)
    → IsTiling n cur plan
    → Runs plan k e
    → (k < e) × (e ≤ n) × IsBoundary n plan e
tiling-Runs n cur [] k e h (g, there, from, to) = elim there [ ]
tiling-Runs n cur (g ∷ gs) k e (at, le, lt, rest) (h, inl here, from, to) =
    let first : h.first ≡ g.first = ap (λ (x : IndexSegment). x.first) here in
    let last : h.last ≡ g.last = ap (λ (x : IndexSegment). x.last) here in
    let ends : suc g.last ≡ e = omega arith in
    (
      omega arith,
      omega arith,
      more-IsBoundary n g gs e
          (subst (IsBoundary n gs) ends (tiling-IsBoundary n (suc g.last) gs rest)),
    )
tiling-Runs n cur (g ∷ gs) k e (at, le, lt, rest) (h, inr there, from, to) =
    let (some_there, fits, boundary) =
      tiling-Runs n (suc g.last) gs k e rest (h, there, from, to) in
    (some_there, fits, more-IsBoundary n g gs e boundary)
