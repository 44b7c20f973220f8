-- ===== src/Parallel/Accurate.antt =====
-- That what a worker of make.go sends are chunks of the file.
use desync.Common.{
  ℕ, ◌+◌, ◌*◌, ◌%◌, ◌^◌, ◌≤◌, ◌<◌, ◌≡◌, ◌≢◌, refl, sym, ap, subst, ◌∙◌, inl, inr, List, [], ◌∷◌,
  ◌++◌, length, take, drop, replicate, length-append, length-drop, take-length_append,
  drop-length_append, drop-drop, All, true, false, Option-cases, none, arith,
}
use desync.Chunk.Defs.{zero_id}
use desync.Chunker.Defs.{Chunker, Split, next}
use desync.Chunker.Stream.{IsChunker, IsNextOf, next-IsNextOf, remaining}
use desync.Index.Defs.{IndexChunk}
use desync.Parallel.Defs.{
  WorkError, chunking, Phase, top, produced, unsynced, sending, finished, closed, active, Worker,
  end_of, fail, made, produce,
}
use desync.Parallel.Invariant.{position}
use desync.Parallel.Zeroes.{IsZero, IsChunkOf, IsKnown}
use desync.Stream.Defs.{ChunkId}

module _ (sum : List ℕ → ChunkId) (size : ℕ) (file : List ℕ) (fits : length file < 2 ^ 64)
    (some_size : 0 < size)
    (only : (b : List ℕ) → sum b ≡ sum (replicate size 0) → b ≡ replicate size 0)
    (not_zero : sum (replicate size 0) ≢ zero_id) where
  -- A chunk that ends where the chunker stands.
  abbrev pub IsSent : Worker → IndexChunk → Type 0
  IsSent w c = IsChunkOf sum file c × (c.size ≤ size) × (c.start + c.size ≡ position w)

  abbrev pub IsTrueIn : Worker → Phase → Type 0
  IsTrueIn w top = Unit
  IsTrueIn w (produced c) = IsSent w c
  IsTrueIn w (unsynced c z) = IsSent w c × (0 < z → IsZero file c.start (c.start + z + size))
  IsTrueIn w (sending m c) =
      (end_of c + m * size ≡ position w) × IsZero file (end_of c) (position w)
  IsTrueIn w finished = w.eof ≡ true → position w ≡ length file
  IsTrueIn w closed = w.eof ≡ true → position w ≡ length file

  -- The chunker stands at its position in the file.
  pub record IsPlaced (w : Worker) : Type 0 where
    pub ahead : remaining w.chunker ≡ drop (position w) file
    pub within : position w ≤ length file
    pub same_max : w.chunker.max ≡ size
    pub not_eof : w.eof ≡ false

  pub record IsTrue (w : Worker) : Type 0 where
    pub rows : All (IsChunkOf sum file) w.results
    pub known : IsKnown sum size file fits some_size only not_zero w.sync
    pub placed : active w.phase ≡ true → IsPlaced w
    pub phase : IsTrueIn w w.phase

  pub All-append :
      (cs : List IndexChunk) (c : IndexChunk)
      → All (IsChunkOf sum file) cs
      → IsChunkOf sum file c
      → All (IsChunkOf sum file) (cs ++ (c ∷ []))
  All-append [] c a h = (h, tt)
  All-append (d ∷ cs) c (k, a) h = (k, All-append cs c a h)

  pub fail-IsTrue :
      (e : WorkError) (w : Worker) (d : Chunker)
      → IsTrue w
      → w.eof ≡ false
      → IsTrue (fail e (record w { chunker = d }))
  unfolding fail active
  fail-IsTrue e w d t f = record {
    rows = t.rows;
    known = t.known;
    placed = λ h. cc;
    phase = λ h. cc;
  }

  made-bytes :
      (w : Worker) (s : Split) (bytes : List ℕ)
      → IsTrue w
      → IsPlaced w
      → IsNextOf w.chunker s
      → s.error ≡ none
      → s.bytes ≡ bytes
      → IsTrue (made sum w s)
  unfolding made active
  made-bytes w s [] t p n fine is =
      let ahead : remaining s.chunker ≡ drop (position w) file =
        ap (λ x. x ++ remaining s.chunker) (sym is) ∙ n.kept ∙ p.ahead in
      let moved : s.chunker.start ≡ (w.chunker.start + 0) % 2 ^ 64 =
        subst (λ x. s.chunker.start ≡ (w.chunker.start + length x) % 2 ^ 64) is n.moved in
      let nothing : remaining s.chunker ≡ [] = elim (n.above_min fine) [
        | inl more ↦ absurd (omega (arith, more, ap length is))
        | inr over ↦ over
      ] in
      let end : length file ≤ position w =
        omega (arith, ap length (sym ahead ∙ nothing), length-drop (position w) file) in
      rw (made, fine, is)
        (record {
          rows = t.rows;
          known = t.known;
          placed = λ h. cc;
          phase = λ h. omega (arith, end, moved, p.within);
        })
  made-bytes w s (b ∷ bs) t p n fine is =
      let l = length (b ∷ bs) in
      let kept : (b ∷ bs) ++ remaining s.chunker ≡ drop (position w) file =
        ap (λ x. x ++ remaining s.chunker) (sym is) ∙ n.kept ∙ p.ahead in
      let moved : s.chunker.start ≡ (w.chunker.start + l) % 2 ^ 64 =
        subst (λ x. s.chunker.start ≡ (w.chunker.start + length x) % 2 ^ 64) is n.moved in
      let fit : l ≤ size = omega (arith, n.at_most fine, ap length is, p.same_max) in
      let inside : position w + l ≤ length file = omega (
        arith,
        ap length kept,
        length-append (b ∷ bs) (remaining s.chunker),
        length-drop (position w) file,
        p.within,
      ) in
      let row : IsChunkOf sum file (record { id = sum (b ∷ bs); start = position w; size = l }) = (
        inside,
        ap sum (sym (ap (take l) (sym kept) ∙ take-length_append (b ∷ bs) (remaining s.chunker))),
      ) in
      let c : IndexChunk = record {
        id = sum (b ∷ bs);
        start = (s.start + w.offset) % 2 ^ 64;
        size = l;
      } in
      let here : c.start ≡ position w = omega (arith, n.start) in
      let row' : IsChunkOf sum file c =
        subst (λ q. IsChunkOf sum file (record { id = sum (b ∷ bs); start = q; size = l }))
          (sym here) row in
      let after : (w.offset + s.chunker.start) % 2 ^ 64 ≡ position w + l =
        omega (arith, moved, inside) in
      rw (made, fine, is)
        (record {
          rows = All-append w.results c t.rows row';
          known = t.known;
          placed = λ h. record {
            ahead =
                sym (drop-length_append (b ∷ bs) (remaining s.chunker))
                ∙ ap (drop l) kept
                ∙ drop-drop (position w) l file
                ∙ ap (λ q. drop q file) (sym after);
            within = omega (arith, after, inside);
            same_max = n.same_max ∙ p.same_max;
            not_eof = p.not_eof;
          };
          phase = (row', fit, omega (arith, here, after));
        })

  pub produce-IsTrue :
      (w : Worker) → IsTrue w → IsPlaced w → IsChunker w.chunker → IsTrue (produce sum w)
  unfolding produce made
  produce-IsTrue w t p v =
      let s = next w.chunker in
      elim (Option-cases s.error) [
        | inr (x, fails) ↦ rw (made, fails) (fail-IsTrue (chunking x) w s.chunker t p.not_eof)
        | inl fine ↦ made-bytes w s s.bytes t p (next-IsNextOf w.chunker v) fine refl
      ]
