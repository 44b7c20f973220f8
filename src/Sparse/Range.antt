-- ===== src/Sparse/Range.antt =====
-- About `indexRange` of sparse-file.go.
use desync.Common.{
  ℕ, zero, suc, ◌+◌, ◌-◌, ◌≤◌, ◌<◌, ◌≡◌, refl, inl, inr, List, [], ◌∷◌, length, length-drop, drop,
  get_elem?, ltb, leb, false, Bool-cases, some, arith,
}
use desync.Index.Defs.{IndexChunk}
use desync.Index.Layout.{Tiles}
use desync.ReadSeeker.Defs.{search_chunk}
use desync.Sparse.Defs.{run_to, index_range}

-- The chunk at a position of the list, which holds a byte.
abbrev pub Holds : List IndexChunk → ℕ → IndexChunk → ℕ → Type 0
Holds chunks i c j = (get_elem? chunks i ≡ some c) × (c.start ≤ j) × (j < c.start + c.size)

run_to-Holds :
    (start finish end j : ℕ) (chunks : List IndexChunk)
    → Tiles start chunks finish
    → start ≤ j
    → j ≤ end
    → j < finish
    → (i : ℕ) × (c : IndexChunk) × Holds chunks i c j × (i < run_to end chunks)
unfolding run_to
run_to-Holds start finish end j [] t lo hi inside = let bad : ⊥ = omega arith in elim bad [ ]
run_to-Holds start finish end j (c ∷ chunks) (e, t) lo hi inside =
    let here : ltb end c.start ≡ false = ground arith in
    elim (Bool-cases (ltb j (c.start + c.size))) [
      | inl within ↦
          (0, c, (refl, omega arith, ground (arith, within)), rw (run_to, here) (omega arith))
      | inr behind ↦
          let (i, d, holds, below) =
            run_to-Holds (start + c.size) finish end j chunks t (ground (arith, behind)) hi
              inside in
          (suc i, d, holds, rw (run_to, here) (omega (arith, below)))
    ]

search_chunk-Holds :
    (start finish from end j : ℕ) (chunks : List IndexChunk)
    → Tiles start chunks finish
    → start ≤ from
    → from ≤ j
    → j ≤ end
    → j < finish
    → (i : ℕ) × (c : IndexChunk) × Holds chunks i c j
      × (search_chunk from chunks ≤ i)
      × (i ≤ search_chunk from chunks + run_to end (drop (suc (search_chunk from chunks)) chunks))
unfolding search_chunk
search_chunk-Holds start finish from end j [] t lo mid hi inside =
    let bad : ⊥ = omega arith in elim bad [ ]
search_chunk-Holds start finish from end j (c ∷ chunks) (e, t) lo mid hi inside =
    elim (Bool-cases (ltb from (c.start + c.size))) [
      | inl here ↦
          let first : search_chunk from (c ∷ chunks) ≡ 0 = rw (search_chunk, here) refl in
          elim (Bool-cases (ltb j (c.start + c.size))) [
            | inl within ↦ (
              0,
              c,
              (refl, omega arith, ground (arith, within)),
              omega (arith, first),
              omega arith,
            )
            | inr behind ↦
                let (i, d, holds, below) =
                  run_to-Holds (start + c.size) finish end j chunks t (ground (arith, behind)) hi
                    inside in
                (suc i, d, holds, omega (arith, first), rw first (omega (arith, below)))
          ]
      | inr behind ↦
          let later : search_chunk from (c ∷ chunks) ≡ suc (search_chunk from chunks) =
            rw (search_chunk, behind) refl in
          let (i, d, holds, up, below) =
            search_chunk-Holds (start + c.size) finish from end j chunks t (ground (arith, behind))
              mid hi inside in
          (suc i, d, holds, omega (arith, later, up), rw later (omega (arith, below)))
    ]

get_elem?-lt : {A : Type 0} (xs : List A) (i : ℕ) (x : A) → get_elem? xs i ≡ some x → i < length xs
get_elem?-lt [] i x h = cc
get_elem?-lt (y ∷ ys) zero x h = omega arith
get_elem?-lt (y ∷ ys) (suc i) x h = omega (arith, get_elem?-lt ys i x h)

run_to-le : (end : ℕ) (chunks : List IndexChunk) → run_to end chunks ≤ length chunks
unfolding run_to
run_to-le end [] = omega arith
run_to-le end (c ∷ chunks) = ground (arith, run_to-le end chunks)

-- The chunks of the range are chunks of the index.
pub index_range-lt :
    (total from n : ℕ) (chunks : List IndexChunk)
    → Tiles 0 chunks total
    → 0 < n
    → from < total
    → ((index_range chunks from n).0 ≤ (index_range chunks from n).1)
      × ((index_range chunks from n).1 < length chunks)
unfolding index_range
index_range-lt total from n chunks t pos inside =
    let (i, c, holds, up, down) =
      search_chunk-Holds 0 total from from from chunks t (omega arith) (omega arith) (omega arith)
        inside in
    let first : search_chunk from chunks < length chunks =
      omega (arith, get_elem?-lt chunks i c holds.0, up) in
    let some_bytes : ltb n 1 ≡ false = ground arith in
    let there : leb (length chunks) (search_chunk from chunks) ≡ false = ground (arith, first) in
    rw (index_range, some_bytes, there)
      (
        omega arith,
        omega (
          arith,
          first,
          run_to-le (from + n - 1) (drop (suc (search_chunk from chunks)) chunks),
          length-drop (suc (search_chunk from chunks)) chunks,
        ),
      )

-- The range of chunks holds every byte of the range asked for that lies in the blob.
pub index_range-Holds :
    (total from n j : ℕ) (chunks : List IndexChunk)
    → Tiles 0 chunks total
    → from ≤ j
    → j < from + n
    → j < total
    → (i : ℕ) × (c : IndexChunk) × Holds chunks i c j
      × ((index_range chunks from n).0 ≤ i)
      × (i ≤ (index_range chunks from n).1)
unfolding index_range
index_range-Holds total from n j chunks t lo hi inside =
    let (i, c, holds, up, down) =
      search_chunk-Holds 0 total from (from + n - 1) j chunks t (omega arith) lo (omega arith)
        inside in
    let some_bytes : ltb n 1 ≡ false = ground arith in
    let there : leb (length chunks) (search_chunk from chunks) ≡ false =
      ground (arith, get_elem?-lt chunks i c holds.0, up) in
    (i, c, holds, rw (index_range, some_bytes, there) up, rw (index_range, some_bytes, there) down)
