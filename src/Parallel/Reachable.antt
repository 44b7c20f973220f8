-- ===== src/Parallel/Reachable.antt =====
-- About every run of `IndexFromFile` of make.go, whatever the order of the workers' steps.
use desync.Common.{
  ℕ, suc, ◌*◌, ◌/◌, ◌%◌, ◌^◌, ◌<◌, ◌≡◌, refl, ap, subst, ◌∙◌, inl, inr, List, [], length, ◌==◌,
  true, false, Bool-cases, Option, Option-cases, none, some, ltb, length-replicate, arith,
}
use desync.Common.Outcome.{Outcome, ok, err, panic, out_of_fuel, ◌>>=◌}
use desync.Chunk.Defs.{NullChunk, new_null_chunk}
use desync.Chunker.Defs.{Chunker, SizeError, new_chunker}
use desync.Chunker.Source.{Source, ReadError}
use desync.Chunker.Stream.{IsChunker}
use desync.Parallel.Assembling.{accept-IsMaking, behind_worker-IsMaking}
use desync.Parallel.Defs.{
  Phase, top, produced, unsynced, sending, finished, closed, active, Worker, interrupted, fail,
  produce,
}
use desync.Parallel.Invariant.{position, IsIn, IsMaking}
use desync.Parallel.Leaving.{skip_next-IsMaking}
use desync.Parallel.Local.{local-IsMaking}
use desync.Parallel.Neighbour.{synced-IsMaking}
use desync.Parallel.Sync.{Chain}
use desync.Parallel.System.{
  Making, inc_produced, Step, interrupt, chunk, sync, no_sync, skip, send, again, close, take,
  advance, Reaches, stay, then_step, index_from_file, started, new_worker, set_worker,
  count_produced, worker_count,
}
use desync.Parallel.Work.{
  SeeksForward, fail-IsLocal, produce-IsLocal, phase-IsLocal, skip_zeroes-IsLocal,
  send_null-IsLocal, close-IsLocal,
}
use desync.Stream.Defs.{ChunkId}

going_in : (w : Worker) (p : Phase) → w.phase ≡ p → active p ≡ true → active w.phase ≡ true
going_in w p e h = rw e h

module _ (size : ℕ) (sum : List ℕ → ChunkId) (seek : ℕ → Source → Option ReadError × Source)
    (nc : NullChunk) (forward : SeeksForward seek) (long : length nc.content ≡ size) where
  produced-IsMaking :
      (s : Making)
      → IsMaking size s
      → (j : ℕ) → j < s.count
      → (s.worker j).phase ≡ top
      → IsMaking size
          (count_produced (produce sum (s.worker j)) (set_worker j (produce sum (s.worker j)) s))
  unfolding count_produced set_worker active
  produced-IsMaking s t j h e =
      let w = produce sum (s.worker j) in
      let (sent', l) =
        produce-IsLocal s.worker s.count size (t.front j) (t.sent j) (s.worker j) (t.workers j)
          (rw e refl) sum e in
      elim (Option-cases w.error) [
        | inl fine ↦
            rw (count_produced, fine) (local-IsMaking size s t j h sent' w l (inc_produced s.stats))
        | inr (x, failed) ↦
            rw (count_produced, failed) (local-IsMaking size s t j h sent' w l s.stats)
      ]

  pub Step-IsMaking : (s s' : Making) → Step sum seek nc s s' → IsMaking size s → IsMaking size s'
  unfolding set_worker active
  Step-IsMaking s s' (interrupt r j h e) t =
      local-IsMaking size s t j h (t.sent j) (fail interrupted (s.worker j))
        (fail-IsLocal s.worker s.count size (t.front j) (t.sent j) (s.worker j) (t.workers j)
          (rw e refl) interrupted (s.worker j).chunker)
        s.stats
  Step-IsMaking s s' (chunk r j h e) t = produced-IsMaking s t j h e
  Step-IsMaking s s' (sync r j c h e k) t = synced-IsMaking size s t j h (rw e refl) c nc k e
  Step-IsMaking s s' (no_sync r j c h e k) t =
      let v = t.workers j in
      let (valid, p, q, z) = subst (IsIn size (t.sent j) (s.worker j)) e v.phase in
      local-IsMaking size s t j h (t.sent j) (record (s.worker j) { phase = top })
        (phase-IsLocal s.worker s.count size (t.front j) (t.sent j) (s.worker j) v (rw e refl) top
          refl (valid, p))
        s.stats
  Step-IsMaking s s' (skip r j c zeroes h e) t =
      local-IsMaking size s t j h (t.sent j) _
        (skip_zeroes-IsLocal s.worker s.count size (t.front j) (t.sent j) (s.worker j) (t.workers j)
          (rw e refl) seek nc c zeroes forward long e)
        s.stats
  Step-IsMaking s s' (send r j m c h e) t =
      local-IsMaking size s t j h _ _
        (send_null-IsLocal s.worker s.count size (t.front j) (t.sent j) (s.worker j) (t.workers j)
          (rw e refl) nc m c long e)
        s.stats
  Step-IsMaking s s' (again r j c h e) t = skip_next-IsMaking size s t j c h e
  Step-IsMaking s s' (close r j h e) t =
      local-IsMaking size s t j h (t.sent j) _
        (close-IsLocal s.worker s.count size (t.front j) (t.sent j) (s.worker j) (t.workers j) e)
        s.stats
  Step-IsMaking s s' (take r c cs e f) t = accept-IsMaking size s t c cs e f
  Step-IsMaking s s' (advance r e f g) t = behind_worker-IsMaking size s t e f (rw g refl)

  pub Reaches-IsMaking :
      (s s' : Making) → Reaches sum seek nc s s' → IsMaking size s → IsMaking size s'
  Reaches-IsMaking s s' (stay r) t = t
  Reaches-IsMaking s s' (then_step q q' q'' r st) t =
      Step-IsMaking q' q'' st (Reaches-IsMaking q q' r t)

-- What `NewChunker` gives.
pub new_chunker-IsChunker :
    (d : ℕ → ℕ) (r r' : Source) (min avg max : ℕ) (c : Chunker)
    → (min < max) × (10 * max < 2 ^ 63)
    → new_chunker d r min avg max ≡ ok c
    → IsChunker (record c { r = r' }) × (c.start ≡ 0) × (c.buf ≡ []) × (c.max ≡ max)
unfolding new_chunker
new_chunker-IsChunker d r r' min avg max c (h, fits) e = ground arith

started-IsMaking :
    (open_at : ℕ → Source) (size file_size n : ℕ) (c : Chunker)
    → ((r : Source) → IsChunker (record c { r = r }))
    → c.start ≡ 0
    → 0 < n
    → IsMaking size (started open_at file_size n c)
unfolding started new_worker active
started-IsMaking open_at size file_size n c v e h = record {
  front = λ i. (file_size / n * i) % 2 ^ 64;
  sent = λ i. (file_size / n * i) % 2 ^ 64;
  lead = 0;
  workers = λ i. record {
    chain = refl;
    phase = (v (open_at (file_size / n * i)), omega (arith, e));
    before_end = λ p. refl;
  };
  after = λ j b. (omega arith, omega arith);
  between = λ j i b p q. absurd (omega arith);
  nested = λ j i b p q. absurd (omega arith);
  synced = λ j b p. absurd (omega arith);
  ends = λ j b p q. absurd cc;
  below = λ j b. absurd (omega arith);
  at_lead = omega arith;
  lead_below = h;
  lead-IsClear = λ i b. absurd (omega arith);
  left = λ i b p. absurd (omega arith);
  accepted = ground arith;
  returned = λ p. absurd cc;
}

started_from :
    (open_at : ℕ → Source) (size n : ℕ) (r : Outcome SizeError Chunker) (s : Making)
    → (r >>= (λ c. ok (started open_at size n c))) ≡ ok s
    → (c : Chunker) × (r ≡ ok c) × (started open_at size n c ≡ s)
started_from open_at size n (ok c) s e = (c, refl, cc)
started_from open_at size n (err x) s e = cc
started_from open_at size n panic s e = cc
started_from open_at size n out_of_fuel s e = cc

pub index_from_file-started :
    (d : ℕ → ℕ) (open_at : ℕ → Source) (file_size n min avg max : ℕ) (s : Making)
    → index_from_file d open_at file_size n min avg max ≡ ok s
    → (c : Chunker) × (new_chunker d (open_at 0) min avg max ≡ ok c)
      × (0 < worker_count file_size max n)
      × (started open_at file_size (worker_count file_size max n) c ≡ s)
unfolding index_from_file
index_from_file-started d open_at file_size n min avg max s e =
    let count = worker_count file_size max n in
    elim (Bool-cases (max == 0)) [
      | inl bad ↦ let e' = rw (index_from_file, bad) at e in absurd cc
      | inr max_fine ↦ elim (Bool-cases (count == 0)) [
        | inl bad ↦ let e' = rw (index_from_file, max_fine, bad) at e in absurd cc
        | inr count_fine ↦ elim (Bool-cases (min == 0)) [
          | inl bad ↦ let e' = rw (index_from_file, max_fine, count_fine, bad) at e in absurd cc
          | inr min_fine ↦
              let (c, made, is) =
                started_from open_at file_size count (new_chunker d (open_at 0) min avg max) s
                  (rw (index_from_file, max_fine, count_fine, min_fine) at e) in
              (c, made, ground arith, is)
        ]
      ]
    ]

pub index_from_file-IsMaking :
    (d : ℕ → ℕ) (open_at : ℕ → Source) (file_size n min avg max : ℕ) (s : Making)
    → (min < max) × (10 * max < 2 ^ 63)
    → index_from_file d open_at file_size n min avg max ≡ ok s
    → IsMaking max s
index_from_file-IsMaking d open_at file_size n min avg max s h e =
    let (c, made, positive, is) = index_from_file-started d open_at file_size n min avg max s e in
    let v = λ (r : Source). new_chunker-IsChunker d (open_at 0) r min avg max c h made in
    subst (IsMaking max) is (
      started-IsMaking open_at max file_size (worker_count file_size max n) c (λ r. (v r).0)
        (v (open_at 0)).1 positive)

-- A worker that has stopped at the end of the file has sent all that its chunker gave.
stopped-position :
    (size sent : ℕ) (w : Worker) (p : Phase)
    → IsIn size sent w p
    → active p ≡ false
    → w.eof ≡ true
    → sent ≡ position w
unfolding active
stopped-position size sent w top i e h = cc
stopped-position size sent w (produced c) i e h = cc
stopped-position size sent w (unsynced c z) i e h = cc
stopped-position size sent w (sending m c) i e h = cc
stopped-position size sent w finished i e h = i h
stopped-position size sent w closed i e h = i h

module _ (sum : List ℕ → ChunkId) (seek : ℕ → Source → Option ReadError × Source)
    (forward : SeeksForward seek) (d : ℕ → ℕ) (open_at : ℕ → Source) (file_size n min avg max : ℕ)
    (sizes : (min < max) × (10 * max < 2 ^ 63)) (s s' : Making)
    (starts : index_from_file d open_at file_size n min avg max ≡ ok s)
    (run : Reaches sum seek (new_null_chunk sum max) s s') where
  pub run-IsMaking : IsMaking max s'
  unfolding new_null_chunk
  run-IsMaking =
      Reaches-IsMaking max sum seek (new_null_chunk sum max) forward (length-replicate max 0) s s'
        run (index_from_file-IsMaking d open_at file_size n min avg max s sizes starts)

  pub run_end :
      s'.result ≡ some none
      → ((j : ℕ) → suc j < s'.count → (s'.worker j).eof ≡ false)
      → (suc s'.at ≡ s'.count)
        × ((s'.worker s'.at).eof ≡ true)
        × Chain 0 s'.chunks (position (s'.worker s'.at))
  run_end r only =
      let t = run-IsMaking in
      let (at_end, empty, stopped) = t.returned r in
      let sent_all = (t.workers s'.at).phase in
      elim (Bool-cases (ltb (suc s'.at) s'.count)) [
        | inl more ↦ let bad = only s'.at (ground arith) in absurd cc
        | inr last ↦
            let leads : t.lead ≡ s'.at =
              let p = t.lead_below in let q = t.at_lead in ground arith in
            let same : t.front s'.at ≡ t.sent s'.at =
              subst (λ l. Chain (t.front s'.at) l (t.sent s'.at)) empty (t.workers s'.at).chain in
            let end =
              same
              ∙ stopped-position max (t.sent s'.at) (s'.worker s'.at) (s'.worker s'.at).phase
                  sent_all stopped at_end in
            (
              (let p = t.lead_below in ground arith),
              at_end,
              subst (λ q. Chain 0 s'.chunks q) (ap t.front leads ∙ end) t.accepted,
            )
      ]
