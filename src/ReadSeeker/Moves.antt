-- ===== src/ReadSeeker/Moves.antt =====
-- About the chunk in which `findOffset` and `Seek` of readseeker.go end, and its data.
use desync.Common.{
  ℕ, suc, ◌+◌, ◌≤◌, ◌<◌, ◌≡◌, refl, sym, ap, subst, ◌∙◌, ◌⊎◌, inl, inr, List, [], ◌∷◌, length,
  get_elem?, ltb, ◌==◌, ==_iff, Bool-cases, some, some_inj, false, if◌then◌else◌, arith,
}
use desync.Common.Outcome.{ok}
use desync.Chunk.Defs.{id_equal}
use desync.Chunk.Storage.{id_equal→eq}
use desync.Files.{bytes_from}
use desync.Index.Defs.{IndexChunk}
use desync.Index.Layout.{Tiles, Tiles-le}
use desync.ReadSeeker.Defs.{
  IndexPos, search_chunk, chunk_index, move_to, stays_inside, bisect, find_offset, forward,
  seek_current, target, seek_to, seek, shift,
}
use desync.ReadSeeker.Position.{
  IsPositioned, find_chunk, chunk_index-cons, chunk_index-here, stays_inside_bounds,
}
use desync.Sparse.Bytes.{Tiles-get_elem?}

-- Where the search for a position ends: within a chunk, or in the last one for the end of the blob.
chunk_index_inside :
    (start p finish : ℕ) (c d : IndexChunk) (chunks : List IndexChunk)
    → Tiles start (c ∷ chunks) finish
    → p ≤ finish
    → get_elem? (c ∷ chunks) (chunk_index p (c ∷ chunks)) ≡ some d
    → (p < finish → p < d.start + d.size)
      × (p ≡ finish → suc (chunk_index p (c ∷ chunks)) ≡ length (c ∷ chunks))
unfolding chunk_index search_chunk
chunk_index_inside start p finish c d [] (e, t) hi got = ground arith
chunk_index_inside start p finish c d (x ∷ chunks) (e, t) hi got =
    elim (Bool-cases (ltb p (c.start + c.size))) [
      | inl here ↦
          let less : p < finish =
            let q = Tiles-le (start + c.size + x.size) chunks finish t.1 in ground arith in
          let index = chunk_index-here p c x chunks here in
          let is : c ≡ d = some_inj (rw index at got) in
          (
            (λ h. subst (λ (y : IndexChunk). p < y.start + y.size) is (ground arith)),
            λ h. absurd (omega (arith, h, less)),
          )
      | inr behind ↦
          let index = chunk_index-cons p c x chunks behind in
          let got' : get_elem? (x ∷ chunks) (chunk_index p (x ∷ chunks)) ≡ some d =
            rw index at got in
          let (lo, hi') = chunk_index_inside (start + c.size) p finish x d chunks t hi got' in
          (lo, λ h. omega (arith, index, hi' h))
    ]

index_inside :
    (p finish : ℕ) (d : IndexChunk) (chunks : List IndexChunk)
    → Tiles 0 chunks finish
    → p ≤ finish
    → get_elem? chunks (chunk_index p chunks) ≡ some d
    → (p < finish → p < d.start + d.size)
      × (p ≡ finish → suc (chunk_index p chunks) ≡ length chunks)
index_inside p finish d [] t hi got = cc
index_inside p finish d (c ∷ chunks) t hi got = chunk_index_inside 0 p finish c d chunks t hi got

-- Chunks of a blob with the same id have the same data.
abbrev pub SameData : (ℕ → ℕ) → List IndexChunk → Type 0
SameData blob chunks =
    (i j : ℕ) (c d : IndexChunk)
    → get_elem? chunks i ≡ some c
    → get_elem? chunks j ≡ some d
    → c.id ≡ d.id
    → bytes_from blob c.size c.start ≡ bytes_from blob d.size d.start

-- A seeker in a blob, in the chunk `c`: within it, or at the end of the blob in the last one; the data
-- that is loaded is that of the chunk.
pub record IsReading (blob : ℕ → ℕ) (ip : IndexPos) (c : IndexChunk) : Type 0 where
  pub positioned : IsPositioned ip c
  pub id : ip.cur_chunk_id ≡ c.id
  pub inside : ip.pos < ip.length → ip.cur_chunk_offset < c.size
  pub last : ip.pos ≡ ip.length → suc ip.cur_chunk_idx ≡ length ip.chunks
  pub loaded : (ip.cur_chunk ≡ []) ⊎ (ip.cur_chunk ≡ bytes_from blob c.size c.start)

-- Where a move ends: at the position, in the same blob.
abbrev pub Moves : (ℕ → ℕ) → IndexPos → ℕ → IndexPos → Type 0
Moves blob ip p ip' =
    (d : IndexChunk) × (ip'.pos ≡ p)
    × (ip'.length ≡ ip.length)
    × (ip'.chunks ≡ ip.chunks)
    × IsReading blob ip' d

module _ (blob : ℕ → ℕ) (ip : IndexPos) (c : IndexChunk) (r : IsReading blob ip c)
    (same : SameData blob ip.chunks) (p : ℕ) (le : p ≤ ip.length) where
  kept_data :
      (d : IndexChunk) (i : ℕ)
      → get_elem? ip.chunks i ≡ some d
      → ((if id_equal d.id ip.cur_chunk_id then ip.cur_chunk else []) ≡ [])
        ⊎ ((if id_equal d.id ip.cur_chunk_id then ip.cur_chunk else [])
            ≡ bytes_from blob d.size d.start)
  kept_data d i got = elim (Bool-cases (id_equal d.id ip.cur_chunk_id)) [
    | inr other ↦ rw other (inl refl)
    | inl again ↦ elim r.loaded [
      | inl none_yet ↦ rw again (inl none_yet)
      | inr there ↦ rw again (
          inr (
            there
            ∙ same ip.cur_chunk_idx i c d r.positioned.current got
                (sym r.id ∙ sym (id_equal→eq d.id ip.cur_chunk_id again))))
    ]
  ]

  bisect-Moves : ((bisect ip p).0 ≡ ok p) × Moves blob ip p (bisect ip p).1
  unfolding bisect move_to
  bisect-Moves =
      let w = r.positioned in
      let (d, got, lo, hi) =
        find_chunk p ip.length c ip.cur_chunk_idx ip.chunks w.tiles w.current le in
      let (within, ends) = index_inside p ip.length d ip.chunks w.tiles le got in
      let low : ltb p d.start ≡ false = ground arith in
      let high : ltb (d.start + d.size) p ≡ false = ground arith in
      rw (bisect, got, low, high)
        (
          refl,
          (
            d,
            refl,
            refl,
            refl,
            record {
              positioned = record {
                tiles = w.tiles;
                current = got;
                at = omega arith;
                within = omega arith;
              };
              id = refl;
              inside = λ h. let q = within h in omega arith;
              last = ends;
              loaded = kept_data d (chunk_index p ip.chunks) got;
            },
          ),
        )

  find_offset-Moves : ((find_offset ip p).0 ≡ ok p) × Moves blob ip p (find_offset ip p).1
  unfolding find_offset
  find_offset-Moves = elim (Bool-cases (p == ip.pos)) [
    | inl here ↦
        let e : p ≡ ip.pos = (==_iff _ _).0 here in
        rw (find_offset, here) (ap (λ n. ok n) (sym e), (c, sym e, refl, refl, r))
    | inr moved ↦ elim (Bool-cases (stays_inside ip c.size p)) [
      | inl inside ↦
          let w = r.positioned in
          let (lo, hi) = stays_inside_bounds ip c.size p inside in
          let fits = Tiles-get_elem? 0 ip.length ip.chunks ip.cur_chunk_idx c w.tiles w.current in
          rw (find_offset, moved, w.current, inside)
            (
              refl,
              (
                c,
                refl,
                refl,
                refl,
                record {
                  positioned = record {
                    tiles = w.tiles;
                    current = w.current;
                    at = omega (arith, w.at);
                    within = omega (arith, w.at);
                  };
                  id = r.id;
                  inside = λ h. omega (arith, hi);
                  last = λ h. absurd (omega (arith, h, fits, w.at, hi));
                  loaded = r.loaded;
                },
              ),
            )
      | inr outside ↦ rw (find_offset, moved, r.positioned.current, outside) bisect-Moves
    ]
  ]

pub seek-Moves :
    (blob : ℕ → ℕ) (ip : IndexPos) (c : IndexChunk) (n : ℕ)
    → IsReading blob ip c
    → SameData blob ip.chunks
    → ip.pos + n ≤ ip.length
    → ((seek ip (forward n) seek_current).0 ≡ ok (ip.pos + n))
      × Moves blob ip (ip.pos + n) (seek ip (forward n) seek_current).1
unfolding seek seek_to target shift
seek-Moves blob ip c n r same le =
    let (result, moves) = find_offset-Moves blob ip c r same (ip.pos + n) le in
    let inside : ltb ip.length (ip.pos + n) ≡ false = ground arith in
    rw (seek, seek_to, result, inside) (refl, moves)
