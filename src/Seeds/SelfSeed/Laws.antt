-- ===== src/Seeds/SelfSeed/Laws.antt =====
-- About the map and the positions of selfseed.go.
use desync.Common.{
  ℕ, zero, suc, ◌+◌, ◌-◌, ◌≤◌, ◌<◌, ◌≡◌, ◌≢◌, refl, sym, ap, List, [], ◌∷◌, ◌++◌, length, take,
  drop, ◌==◌, Bool-cases, none, some, inl, inr, arith, ◌∙◌, length-take,
}
use desync.Index.Defs.{IndexChunk}
use desync.Seeds.Defs.{Positions, positions_from, add_position}
use desync.Seeds.SelfSeed.{Entries, lookup, delete}

pub lookup-delete_other :
    (cache : Entries) (k j : ℕ) → k ≢ j → lookup (delete k cache) j ≡ lookup cache j
unfolding lookup delete
lookup-delete_other [] k j ne = refl
lookup-delete_other ((i, v) ∷ cache) k j ne = ground (arith, lookup-delete_other cache k j ne)

pub lookup-delete_same : (cache : Entries) (k : ℕ) → lookup (delete k cache) k ≡ none
unfolding lookup delete
lookup-delete_same [] k = refl
lookup-delete_same ((i, v) ∷ cache) k = ground (arith, lookup-delete_same cache k)

length-delete_le : (cache : Entries) (k : ℕ) → length (delete k cache) ≤ length cache
unfolding delete
length-delete_le [] k = omega arith
length-delete_le ((i, v) ∷ cache) k = ground (arith, length-delete_le cache k)

pub length-delete_lt :
    (cache : Entries) (k v : ℕ) → lookup cache k ≡ some v → length (delete k cache) < length cache
unfolding delete lookup
length-delete_lt [] k v h = cc
length-delete_lt ((i, w) ∷ cache) k v h = elim (Bool-cases (i == k)) [
  | inl e ↦ ground (arith, length-delete_le cache k)
  | inr e ↦
      let there : lookup cache k ≡ some v = rw e at h in
      ground (arith, length-delete_lt cache k v there)
]

positions_from-append :
    (i : ℕ) (xs ys : List IndexChunk) (pos : Positions)
    → positions_from i (xs ++ ys) pos ≡ positions_from (i + length xs) ys (positions_from i xs pos)
unfolding positions_from
positions_from-append i [] ys pos = ap (λ j. positions_from j ys pos) (omega arith)
positions_from-append i (x ∷ xs) ys pos =
    let same : i + 1 + length xs ≡ i + suc (length xs) = omega arith in
    positions_from-append (i + 1) xs ys (add_position x.id i pos)
    ∙ ap (λ j. positions_from j ys (positions_from (i + 1) xs (add_position x.id i pos))) same

take-nil : (n : ℕ) → take {A = IndexChunk} n [] ≡ []
take-nil zero = refl
take-nil (suc n) = refl

take-further :
    (a b : ℕ) (xs : List IndexChunk) → a ≤ b → take a xs ++ take (b - a) (drop a xs) ≡ take b xs
take-further zero b xs h = ap (λ n. take n xs) (omega arith)
take-further (suc a) zero xs h = let bad : ⊥ = omega arith in elim bad [ ]
take-further (suc a) (suc b) [] h = take-nil (suc b - suc a)
take-further (suc a) (suc b) (x ∷ xs) h =
    let same : suc b - suc a ≡ b - a = omega arith in
    ap (λ l. x ∷ l)
      (ap (λ n. take a xs ++ take n (drop a xs)) same ∙ take-further a b xs (omega arith))

-- The positions of a prefix, from those of a shorter one.
pub positions_from-further :
    (a b : ℕ) (xs : List IndexChunk) (pos : Positions)
    → a ≤ b
    → b ≤ length xs
    → positions_from a (take (b - a) (drop a xs)) (positions_from 0 (take a xs) pos)
      ≡ positions_from 0 (take b xs) pos
positions_from-further a b xs pos up fits =
    let at : 0 + length (take a xs) ≡ a = omega (arith, length-take a xs) in
    ap (λ i. positions_from i (take (b - a) (drop a xs)) (positions_from 0 (take a xs) pos))
      (sym at)
    ∙ sym (positions_from-append 0 (take a xs) (take (b - a) (drop a xs)) pos)
    ∙ ap (λ l. positions_from 0 l pos) (take-further a b xs up)
