-- ===== src/Parallel/Skipping.antt =====
-- That the null chunks which a worker of make.go sends without reading are chunks of the file.
use desync.Common.{
  ℕ, suc, ◌+◌, ◌-◌, ◌*◌, ◌%◌, ◌^◌, ◌≤◌, ◌<◌, ◌≡◌, ◌≢◌, refl, sym, ap, subst, ◌∙◌, inl, inr, List,
  length, take, drop, drop-drop, replicate, length-replicate, leb, ltb, ◌==◌, false, Bool-cases,
  Option, none, some, if-both, arith,
}
use desync.Chunk.Defs.{NullChunk, zero_id}
use desync.Chunker.Advance.{drop-append, drop-append_behind}
use desync.Chunker.Defs.{Chunker}
use desync.Chunker.Source.{Source, ReadError, contents}
use desync.Chunker.Stream.{remaining}
use desync.Index.Defs.{IndexChunk}
use desync.Parallel.Accurate.{IsTrueIn, IsPlaced, IsTrue, fail-IsTrue, All-append}
use desync.Parallel.Defs.{
  chunking, sending, unsynced, active, Worker, end_of, advance, null_chunks, moved_on, skip_zeroes,
  null_behind, send_null,
}
use desync.Parallel.Invariant.{position}
use desync.Parallel.Work.{SeeksForward, advance-start}
use desync.Parallel.Zeroes.{IsZero-le, IsZero-bytes, null}
use desync.Stream.Defs.{ChunkId}
use native.Mathlib.Nat.{div-mul-le_self, mul-pos}

advance-remaining :
    (seek : ℕ → Source → Option ReadError × Source) (n : ℕ) (c : Chunker)
    → SeeksForward seek
    → (advance seek n c).0 ≡ none
    → remaining (advance seek n c).1 ≡ drop n (remaining c)
unfolding advance
advance-remaining seek n c forward h = elim (Bool-cases (leb n (length c.buf))) [
  | inl inside ↦ rw (advance, inside) (sym (drop-append n c.buf (contents c.r) (ground arith)))
  | inr behind ↦
      let m = n - length c.buf in
      let fine : (seek m c.r).0 ≡ none = rw (advance, behind) at h in
      rw (advance, behind)
        (forward m c.r fine ∙ sym (drop-append_behind n c.buf (contents c.r) (ground arith)))
]

advance-max :
    (seek : ℕ → Source → Option ReadError × Source) (n : ℕ) (c : Chunker)
    → (advance seek n c).1.max ≡ c.max
unfolding advance
advance-max seek n c = ground arith

null_chunks-le : (nc : NullChunk) (z : ℕ) → null_chunks nc z * length nc.content ≤ z
unfolding null_chunks
null_chunks-le nc z =
    if-both (λ x. x * length nc.content ≤ z) (ltb z (2 ^ 63))
      (div-mul-le_self z (length nc.content)) (omega arith)

module _ (sum : List ℕ → ChunkId) (size : ℕ) (file : List ℕ) (fits : length file < 2 ^ 64)
    (some_size : 0 < size)
    (only : (b : List ℕ) → sum b ≡ sum (replicate size 0) → b ≡ replicate size 0)
    (not_zero : sum (replicate size 0) ≢ zero_id) where
  abbrev IsTrue' : Worker → Type 0
  IsTrue' = IsTrue sum size file fits some_size only not_zero

  abbrev nc : NullChunk
  nc = null sum size file fits some_size only not_zero

  moved_on-IsTrue :
      (w : Worker) (m : ℕ) (c : IndexChunk) (e : Option ReadError) (d : Chunker)
      → IsTrue' w
      → w.eof ≡ false
      → (e ≡ none → IsPlaced sum size file fits some_size only not_zero (record w { chunker = d }))
      → (e ≡ none
          → IsTrueIn sum size file fits some_size only not_zero
              (record w { chunker = d })
              (sending m c))
      → IsTrue' (moved_on m c w (e, d))
  unfolding moved_on
  moved_on-IsTrue w m c (some x) d t f p h =
      fail-IsTrue sum size file fits some_size only not_zero (chunking x) w d t f
  moved_on-IsTrue w m c none d t f p h = record {
    rows = t.rows;
    known = t.known;
    placed = λ g.
        let q = p refl in
        record { ahead = q.ahead; within = q.within; same_max = q.same_max; not_eof = q.not_eof };
    phase = h refl;
  }

  pub skip_zeroes-IsTrue :
      (seek : ℕ → Source → Option ReadError × Source) (w : Worker) (c : IndexChunk) (zeroes : ℕ)
      → SeeksForward seek
      → IsTrue' w
      → w.phase ≡ unsynced c zeroes
      → IsTrue' (skip_zeroes seek nc c zeroes w)
  unfolding skip_zeroes active end_of
  skip_zeroes-IsTrue seek w c zeroes forward t at_c =
      let (((inside, row), short, ends), z) =
        subst (IsTrueIn sum size file fits some_size only not_zero w) at_c t.phase in
      let p = t.placed (rw at_c refl) in
      let m = null_chunks nc zeroes in
      let n = m * length nc.content in
      elim (Bool-cases (m == 0)) [
        | inl none_fit ↦
            rw (skip_zeroes, none_fit)
              (record {
                rows = t.rows;
                known = t.known;
                placed = λ g. record {
                  ahead = p.ahead;
                  within = p.within;
                  same_max = p.same_max;
                  not_eof = p.not_eof;
                };
                phase =
                    (omega (arith, ends, inside), λ i l u. absurd (omega (arith, ends, inside)));
              })
        | inr some_fit ↦
            let wide = length-replicate {A = ℕ} size 0 in
            let nsize : n ≡ m * size = ap (λ k. m * k) wide in
            let le = null_chunks-le nc zeroes in
            let positive : 0 < zeroes =
              let q =
                mul-pos {m = m} {n = length nc.content} (ground arith) (omega (arith, wide)) in
              omega (arith, q, le) in
            let zs = z positive in
            let within = IsZero-le file c.start (c.start + zeroes + size) zs (omega (arith)) in
            let d = (advance seek n w.chunker).1 in
            let starts : d.start ≡ (w.chunker.start + n) % 2 ^ 64 =
              advance-start seek n w.chunker in
            let there : position (record w { chunker = d }) ≡ position w + n =
              omega (arith, starts, le, within, ends, short) in
            rw (skip_zeroes, some_fit)
              (moved_on-IsTrue w m c (advance seek n w.chunker).0 d t p.not_eof
                (λ fine. record {
                  ahead =
                      advance-remaining seek n w.chunker forward fine
                      ∙ ap (drop n) p.ahead
                      ∙ drop-drop (position w) n file
                      ∙ ap (λ q. drop q file) (sym there);
                  within = omega (arith, there, le, within, ends, short);
                  same_max = advance-max seek n w.chunker ∙ p.same_max;
                  not_eof = p.not_eof;
                })
                (λ fine. (
                  omega (arith, ends, inside, there, nsize),
                  λ i l u.
                      zs i (omega (arith, ends, inside, l))
                        (omega (arith, u, there, le, ends, short)),
                )))
      ]

  end_null :
      (c : IndexChunk) → end_of c + size < 2 ^ 64 → end_of (null_behind nc c) ≡ end_of c + size
  unfolding end_of null_behind
  end_null c h = let wide = length-replicate {A = ℕ} size 0 in omega (arith, wide, h)

  pub send_null-IsTrue :
      (w : Worker) (m : ℕ) (c : IndexChunk)
      → IsTrue' w
      → w.phase ≡ sending (suc m) c
      → IsTrue' (send_null nc m c w)
  unfolding send_null null_behind active
  send_null-IsTrue w m c t at_c =
      let (ends, z) = subst (IsTrueIn sum size file fits some_size only not_zero w) at_c t.phase in
      let p = t.placed (rw at_c refl) in
      let wide = length-replicate {A = ℕ} size 0 in
      let split : suc m * size ≡ size + m * size = ground arith in
      let bytes =
        IsZero-bytes file (end_of c) size (λ i l u. z i l (omega (arith, ends, split, u))) in
      let new = null_behind nc c in
      let same : take new.size (drop new.start file) ≡ replicate size 0 =
        subst (λ k. take k (drop (end_of c) file) ≡ replicate size 0) (sym wide) bytes in
      let inside : new.start + new.size ≤ length file =
        omega (arith, ends, split, wide, p.within) in
      let here : end_of new ≡ end_of c + size = end_null c (omega (arith, ends, split, p.within)) in
      record {
        rows =
            All-append sum size file fits some_size only not_zero w.results new t.rows
              (inside, ap sum (sym same));
        known = t.known;
        placed = λ g. record {
          ahead = p.ahead;
          within = p.within;
          same_max = p.same_max;
          not_eof = p.not_eof;
        };
        phase = (omega (arith, here, ends, split), λ i l u. z i (omega (arith, here, l)) u);
      }
