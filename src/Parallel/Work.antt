-- ===== src/Parallel/Work.antt =====
-- About what a worker of make.go does by itself.
use desync.Common.{
  ℕ, suc, ◌+◌, ◌-◌, ◌*◌, ◌%◌, ◌^◌, ◌≡◌, refl, ap, subst, ◌∙◌, inl, inr, List, [], ◌∷◌, length, leb,
  drop, drop-nil, ◌==◌, true, Bool-cases, Option-cases, Option, none, some, arith,
}
use desync.Chunk.Defs.{NullChunk}
use desync.Chunker.Defs.{Chunker, Split, next}
use desync.Chunker.Source.{Source, ReadError, contents}
use desync.Chunker.Stream.{IsChunker, IsNextOf, next-IsNextOf}
use desync.Index.Defs.{IndexChunk}
use desync.Parallel.Defs.{
  WorkError, chunking, Phase, top, unsynced, sending, finished, closed, active, Worker, end_of,
  fail, made, produce, advance, null_chunks, moved_on, skip_zeroes, null_behind, send_null,
}
use desync.Parallel.Invariant.{position, IsIn, IsWorker}
use desync.Parallel.Local.{IsLocal}
use desync.Parallel.Sync.{Chain-append}
use desync.Stream.Defs.{ChunkId}

-- A seek forward in a file: the bytes that it skips are not read.
abbrev pub SeeksForward : (ℕ → Source → Option ReadError × Source) → Type 0
SeeksForward seek =
    (n : ℕ) (r : Source) → (seek n r).0 ≡ none → contents (seek n r).1 ≡ drop n (contents r)

advance-IsChunker :
    (seek : ℕ → Source → Option ReadError × Source) (n : ℕ) (c : Chunker)
    → SeeksForward seek
    → IsChunker c
    → (advance seek n c).0 ≡ none
    → IsChunker (advance seek n c).1
unfolding advance
advance-IsChunker seek n c forward v h = elim (Bool-cases (leb n (length c.buf))) [
  | inl inside ↦
      rw (advance, inside)
        (record { window = v.window; sizes = v.sizes; fits = v.fits; at_end = v.at_end })
  | inr behind ↦
      let m = n - length c.buf in
      let fine : (seek m c.r).0 ≡ none = rw (advance, behind) at h in
      rw (advance, behind)
        (record {
          window = v.window;
          sizes = v.sizes;
          fits = v.fits;
          at_end = λ e. forward m c.r fine ∙ ap (λ l. drop m l) (v.at_end e) ∙ drop-nil m;
        })
]

pub advance-start :
    (seek : ℕ → Source → Option ReadError × Source) (n : ℕ) (c : Chunker)
    → (advance seek n c).1.start ≡ (c.start + n) % 2 ^ 64
unfolding advance
advance-start seek n c = ground arith

module _ (ws : ℕ → Worker) (count size front sent : ℕ) (w : Worker) (v : IsWorker size front sent w)
    (a : active w.phase ≡ true) where
  pub fail-IsLocal :
      (e : WorkError) (d : Chunker)
      → IsLocal ws count size w front sent (fail e (record w { chunker = d })) sent
  unfolding fail active
  fail-IsLocal e d =
      let h = v.before_end a in
      record {
        same_next = refl;
        same_sync = refl;
        valid = record { chain = v.chain; phase = λ p. cc; before_end = λ p. cc };
        why = λ p q. inl (e, refl);
        stays = λ p. cc;
      }

  made-bytes :
      (sum : List ℕ → ChunkId) (s : Split) (bytes : List ℕ)
      → sent ≡ position w
      → IsNextOf w.chunker s
      → s.error ≡ none
      → s.bytes ≡ bytes
      → (sent' : ℕ) × IsLocal ws count size w front sent (made sum w s) sent'
  unfolding made active end_of
  made-bytes sum s [] e n fine is =
      let moved : s.chunker.start ≡ (w.chunker.start + 0) % 2 ^ 64 =
        subst (λ l. s.chunker.start ≡ (w.chunker.start + length l) % 2 ^ 64) is n.moved in
      (
        sent,
        rw (made, fine, is)
            (record {
              same_next = refl;
              same_sync = refl;
              valid = record {
                chain = v.chain;
                phase = λ p. omega (arith, e, moved);
                before_end = λ p. cc;
              };
              why = λ p q. inr (inl refl);
              stays = λ p. cc;
            }),
      )
  made-bytes sum s (b ∷ bs) e n fine is =
      let c : IndexChunk = record {
        id = sum (b ∷ bs);
        start = (s.start + w.offset) % 2 ^ 64;
        size = length (b ∷ bs);
      } in
      let moved : s.chunker.start ≡ (w.chunker.start + length (b ∷ bs)) % 2 ^ 64 =
        subst (λ l. s.chunker.start ≡ (w.chunker.start + length l) % 2 ^ 64) is n.moved in
      (
        end_of c,
        rw (made, fine, is)
            (record {
              same_next = refl;
              same_sync = refl;
              valid = record {
                chain = Chain-append front sent w.results c v.chain (omega (arith, e, n.start));
                phase = (n.valid, omega (arith, n.start, moved), refl, omega arith);
                before_end = λ p. v.before_end a;
              };
              why = λ p q. cc;
              stays = λ p. cc;
            }),
      )

  made-IsLocal :
      (sum : List ℕ → ChunkId) (s : Split)
      → sent ≡ position w
      → IsNextOf w.chunker s
      → (sent' : ℕ) × IsLocal ws count size w front sent (made sum w s) sent'
  unfolding made
  made-IsLocal sum s e n = elim (Option-cases s.error) [
    | inr (x, fails) ↦ (sent, rw (made, fails) (fail-IsLocal (chunking x) s.chunker))
    | inl fine ↦ made-bytes sum s s.bytes e n fine refl
  ]

  pub produce-IsLocal :
      (sum : List ℕ → ChunkId)
      → w.phase ≡ top
      → (sent' : ℕ) × IsLocal ws count size w front sent (produce sum w) sent'
  unfolding produce
  produce-IsLocal sum at_top =
      let (valid, e) = subst (IsIn size sent w) at_top v.phase in
      made-IsLocal sum (next w.chunker) e (next-IsNextOf w.chunker valid)

  -- Where only the phase changes, to one that goes on.
  pub phase-IsLocal :
      (p : Phase)
      → active p ≡ true
      → IsIn size sent (record w { phase = p }) p
      → IsLocal ws count size w front sent (record w { phase = p }) sent
  phase-IsLocal p b h = record {
    same_next = refl;
    same_sync = refl;
    valid = record { chain = v.chain; phase = h; before_end = λ q. v.before_end a };
    why = λ q r. cc;
    stays = λ q. cc;
  }

  moved_on-IsLocal :
      (m : ℕ) (c : IndexChunk) (e : Option ReadError) (d : Chunker)
      → sent ≡ position w
      → end_of c ≡ sent
      → (e ≡ none → IsChunker d)
      → d.start ≡ (w.chunker.start + m * size) % 2 ^ 64
      → IsLocal ws count size w front sent (moved_on m c w (e, d)) sent
  unfolding moved_on active
  moved_on-IsLocal m c (some x) d p q r t = fail-IsLocal (chunking x) d
  moved_on-IsLocal m c none d p q r t = record {
    same_next = refl;
    same_sync = refl;
    valid = record {
      chain = v.chain;
      phase = (r refl, q, omega (arith, p, t));
      before_end = λ h. v.before_end a;
    };
    why = λ h i. cc;
    stays = λ h. cc;
  }

  pub skip_zeroes-IsLocal :
      (seek : ℕ → Source → Option ReadError × Source) (nc : NullChunk) (c : IndexChunk) (zeroes : ℕ)
      → SeeksForward seek
      → length nc.content ≡ size
      → w.phase ≡ unsynced c zeroes
      → IsLocal ws count size w front sent (skip_zeroes seek nc c zeroes w) sent
  unfolding skip_zeroes active end_of
  skip_zeroes-IsLocal seek nc c zeroes forward long at_c =
      let (valid, e, q) = subst (IsIn size sent w) at_c v.phase in
      let m = null_chunks nc zeroes in
      let n = m * length nc.content in
      elim (Bool-cases (m == 0)) [
        | inl none_fit ↦
            rw (skip_zeroes, none_fit)
              (phase-IsLocal (sending 0 c) refl (valid, q, omega (arith, e)))
        | inr some_fit ↦
            rw (skip_zeroes, some_fit)
              (moved_on-IsLocal m c (advance seek n w.chunker).0 (advance seek n w.chunker).1 e q
                (advance-IsChunker seek n w.chunker forward valid)
                (rw (← long) (advance-start seek n w.chunker)))
      ]

  pub send_null-IsLocal :
      (nc : NullChunk) (m : ℕ) (c : IndexChunk)
      → length nc.content ≡ size
      → w.phase ≡ sending (suc m) c
      → IsLocal ws count size w front sent (send_null nc m c w) (end_of (null_behind nc c))
  unfolding send_null active null_behind end_of
  send_null-IsLocal nc m c long at_c =
      let (valid, q, e) = subst (IsIn size sent w) at_c v.phase in
      let split : suc m * size ≡ size + m * size = ground arith in
      record {
        same_next = refl;
        same_sync = refl;
        valid = record {
          chain = Chain-append front sent w.results (null_behind nc c) v.chain q;
          phase = (valid, refl, omega (arith, q, e, long, split));
          before_end = λ h. v.before_end a;
        };
        why = λ h i. cc;
        stays = λ h. cc;
      }

pub close-IsLocal :
    (ws : ℕ → Worker) (count size front sent : ℕ) (w : Worker)
    → IsWorker size front sent w
    → w.phase ≡ finished
    → IsLocal ws count size w front sent (record w { phase = closed }) sent
unfolding active
close-IsLocal ws count size front sent w v e = record {
  same_next = refl;
  same_sync = refl;
  valid = record {
    chain = v.chain;
    phase = subst (IsIn size sent w) e v.phase;
    before_end = λ h. cc;
  };
  why = λ h i. let bad : active finished ≡ true = rw e at h in cc;
  stays = λ h. (refl, refl, refl, refl, refl);
}
