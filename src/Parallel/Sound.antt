-- ===== src/Parallel/Sound.antt =====
-- That the index which make.go assembles is one of the file.
use desync.Common.{
  ℕ, suc, ◌^◌, ◌<◌, ◌≡◌, ◌≢◌, refl, subst, inl, inr, List, ◌∷◌, length, replicate, All, ltb, true,
  false, Bool-cases, Option-cases, Option, if-both, arith,
}
use desync.Chunk.Defs.{NullChunk, zero_id}
use desync.Chunker.Source.{Source, ReadError}
use desync.Index.Defs.{IndexChunk}
use desync.Parallel.Accurate.{IsTrueIn, IsTrue, fail-IsTrue, All-append, produce-IsTrue}
use desync.Parallel.Defs.{
  interrupted, Phase, top, produced, sending, unsynced, finished, closed, active, Worker, fail,
  sync_with, read_by, Synced, produce,
}
use desync.Parallel.Invariant.{IsIn, IsMaking}
use desync.Parallel.Local.{put-all}
use desync.Parallel.Neighbour.{not_below}
use desync.Parallel.Skipping.{skip_zeroes-IsTrue, send_null-IsTrue}
use desync.Parallel.System.{
  Making, is_empty, Step, interrupt, chunk, sync, no_sync, skip, send, again, close, take, advance,
  set_worker, count_produced, synced, behind_sync, skip_next, accept, behind_worker,
}
use desync.Parallel.Work.{SeeksForward}
use desync.Parallel.Zeroes.{IsChunkOf, IsKnown, null, IsSafe, sync_with-IsSafe}
use desync.Stream.Defs.{ChunkId}

module _ (sum : List ℕ → ChunkId) (size : ℕ) (file : List ℕ) (fits : length file < 2 ^ 64)
    (some_size : 0 < size)
    (only : (b : List ℕ) → sum b ≡ sum (replicate size 0) → b ≡ replicate size 0)
    (not_zero : sum (replicate size 0) ≢ zero_id) (seek : ℕ → Source → Option ReadError × Source)
    (forward : SeeksForward seek) where
  abbrev IsTrue' : Worker → Type 0
  IsTrue' = IsTrue sum size file fits some_size only not_zero

  abbrev nc : NullChunk
  nc = null sum size file fits some_size only not_zero

  -- All that the workers have sent, and all that the index has, are chunks of the file.
  pub record IsSound (s : Making) : Type 0 where
    pub workers : (j : ℕ) → j < s.count → IsTrue' (s.worker j)
    pub chunks : All (IsChunkOf sum file) s.chunks

  abbrev IsTrueIn' : Worker → Phase → Type 0
  IsTrueIn' = IsTrueIn sum size file fits some_size only not_zero

  bucket-IsTrueIn :
      (cs : List IndexChunk) (c : IndexChunk) (w : Worker) (p : Phase)
      → IsTrueIn' w p
      → IsTrueIn' (record w { results = cs; sync = c }) p
  bucket-IsTrueIn cs c w top h = h
  bucket-IsTrueIn cs c w (produced d) h = h
  bucket-IsTrueIn cs c w (unsynced d z) h = h
  bucket-IsTrueIn cs c w (sending m d) h = h
  bucket-IsTrueIn cs c w finished h = h
  bucket-IsTrueIn cs c w closed h = h

  bucket-IsTrue :
      (cs : List IndexChunk) (c : IndexChunk) (w : Worker)
      → IsTrue' w
      → All (IsChunkOf sum file) cs
      → IsKnown sum size file fits some_size only not_zero c
      → IsTrue' (record w { results = cs; sync = c })
  bucket-IsTrue cs c w t a k = record {
    rows = a;
    known = k;
    placed = λ h.
        let q = t.placed h in
        record { ahead = q.ahead; within = q.within; same_max = q.same_max; not_eof = q.not_eof };
    phase = bucket-IsTrueIn cs c w w.phase t.phase;
  }

  to_top-IsTrue :
      (w : Worker) (n : ℕ)
      → IsTrue' w
      → active w.phase ≡ true
      → IsTrue' (record w { phase = top; next = n })
  to_top-IsTrue w n t a = record {
    rows = t.rows;
    known = t.known;
    placed = λ h.
        let q = t.placed a in
        record { ahead = q.ahead; within = q.within; same_max = q.same_max; not_eof = q.not_eof };
    phase = tt;
  }

  stopped-IsTrue :
      (w : Worker) (p : Phase)
      → IsTrue' w
      → active p ≡ false
      → IsTrueIn' (record w { phase = p }) p
      → IsTrue' (record w { phase = p })
  stopped-IsTrue w p t a i = record {
    rows = t.rows;
    known = t.known;
    placed = λ h. absurd cc;
    phase = i;
  }

  module _ (s : Making) (t : IsMaking size s) (v : IsSound s) (j : ℕ) (here : j < s.count) where
    set_worker-IsSound : (w : Worker) → IsTrue' w → IsSound (set_worker j w s)
    unfolding set_worker
    set_worker-IsSound w h = record {
      workers = put-all (λ m w. m < s.count → IsTrue' w) j w s.worker (λ b. h) (λ m d. v.workers m);
      chunks = v.chunks;
    }

    count_produced-IsSound : (w : Worker) (s' : Making) → IsSound s' → IsSound (count_produced w s')
    unfolding count_produced
    count_produced-IsSound w s' h = elim (Option-cases w.error) [
      | inl fine ↦ rw (count_produced, fine) (record { workers = h.workers; chunks = h.chunks })
      | inr (x, failed) ↦ rw (count_produced, failed) h
    ]

    skip_next-IsTrue : (c : IndexChunk) → (s.worker j).phase ≡ sending 0 c → IsTrue' (skip_next j s)
    unfolding skip_next active
    skip_next-IsTrue c e =
        let w = s.worker j in
        let n = s.worker w.next in
        let back = λ (k : ℕ). to_top-IsTrue w k (v.workers j here) (rw e refl) in
        if-both IsTrue' (ltb w.next s.count)
          (if-both IsTrue' (active n.phase) (back w.next)
            (if-both IsTrue' (is_empty n.results) (back n.next) (back w.next)))
          (back w.next)

    module _ (c : IndexChunk) (k_below : (s.worker j).next < s.count)
        (at_c : (s.worker j).phase ≡ produced c) where
      abbrev k : ℕ
      k = (s.worker j).next

      abbrev r : Synced
      r = sync_with nc (s.worker k) c

      safe : IsSafe sum size file fits some_size only not_zero c.start r
      unfolding active
      safe =
          let h = not_below size s t j here (rw at_c refl) in
          sync_with-IsSafe sum size file fits some_size only not_zero (s.worker k) c (t.front k)
            (t.sent k) (v.workers k k_below).known
            (t.synced k (let p = t.after j here in omega (arith, p.0, h))) (t.workers k).chain
            (v.workers k k_below).rows

      read_by-IsTrue : IsTrue' (read_by (s.worker k) r)
      unfolding read_by
      read_by-IsTrue =
          bucket-IsTrue r.results r.sync (s.worker k) (v.workers k k_below) safe.rest safe.known

      behind_sync-IsTrue : IsTrue' (behind_sync (s.worker j) c r)
      unfolding behind_sync active
      behind_sync-IsTrue =
          let w = s.worker j in
          let i = subst (IsTrueIn' w) at_c (v.workers j here).phase in
          elim (Bool-cases r.matched) [
            | inl met ↦
                rw (behind_sync, met)
                  (stopped-IsTrue w finished (v.workers j here) refl
                    (λ h. let f = ((v.workers j here).placed (rw at_c refl)).not_eof in absurd cc))
            | inr differ ↦
                rw (behind_sync, differ)
                  (record {
                    rows = (v.workers j here).rows;
                    known = (v.workers j here).known;
                    placed = λ h.
                        let q = (v.workers j here).placed (rw at_c refl) in
                        record {
                          ahead = q.ahead;
                          within = q.within;
                          same_max = q.same_max;
                          not_eof = q.not_eof;
                        };
                    phase = (i, safe.ahead);
                  })
          ]

      synced-IsSound : IsSound (synced nc j c s)
      unfolding synced
      synced-IsSound = record {
        workers =
            put-all (λ m w. m < s.count → IsTrue' w) j (behind_sync (s.worker j) c r) _
              (λ b. behind_sync-IsTrue)
              (λ m d.
                put-all (λ m w. m < s.count → IsTrue' w) k (read_by (s.worker k) r) s.worker
                  (λ b. read_by-IsTrue) (λ m d. v.workers m) m);
        chunks = v.chunks;
      }

    accept-IsSound :
        (c : IndexChunk) (cs : List IndexChunk)
        → (s.worker s.at).results ≡ c ∷ cs
        → IsSound (accept c cs s)
    unfolding accept
    accept-IsSound c cs e =
        let w = v.workers s.at (omega (arith, t.at_lead, t.lead_below)) in
        let (row, rows) = subst (All (IsChunkOf sum file)) e w.rows in
        record {
          workers =
              put-all (λ m w. m < s.count → IsTrue' w) s.at
                (record (s.worker s.at) { results = cs }) s.worker
                (λ b. bucket-IsTrue cs (s.worker s.at).sync (s.worker s.at) w rows w.known)
                (λ m d. v.workers m);
          chunks = All-append sum size file fits some_size only not_zero s.chunks c v.chunks row;
        }

    behind_worker-IsSound : IsSound (behind_worker s)
    unfolding behind_worker
    behind_worker-IsSound = elim (Option-cases (s.worker s.at).error) [
      | inr (x, failed) ↦
          rw (behind_worker, failed) (record { workers = v.workers; chunks = v.chunks })
      | inl fine ↦
          rw (behind_worker, fine)
            (if-both IsSound (s.worker s.at).eof (record { workers = v.workers; chunks = v.chunks })
              (if-both IsSound (ltb (suc s.at) s.count)
                (record { workers = v.workers; chunks = v.chunks })
                (record { workers = v.workers; chunks = v.chunks })))
    ]

  pub Step-IsSound :
      (s s' : Making) → Step sum seek nc s s' → IsMaking size s → IsSound s → IsSound s'
  unfolding active
  Step-IsSound s s' (interrupt r j h e) t v =
      set_worker-IsSound s t v j h (fail interrupted (s.worker j)) (
        fail-IsTrue sum size file fits some_size only not_zero interrupted (s.worker j)
          (s.worker j).chunker (v.workers j h) ((v.workers j h).placed (rw e refl)).not_eof)
  Step-IsSound s s' (chunk r j h e) t v =
      let (valid, p) = subst (IsIn size (t.sent j) (s.worker j)) e (t.workers j).phase in
      let w = produce sum (s.worker j) in
      count_produced-IsSound s t v j h w (set_worker j w s) (
        set_worker-IsSound s t v j h w (
          produce-IsTrue sum size file fits some_size only not_zero (s.worker j) (v.workers j h)
            ((v.workers j h).placed (rw e refl)) valid))
  Step-IsSound s s' (sync r j c h e k) t v = synced-IsSound s t v j h c k e
  Step-IsSound s s' (no_sync r j c h e k) t v =
      set_worker-IsSound s t v j h _
        (to_top-IsTrue (s.worker j) (s.worker j).next (v.workers j h) (rw e refl))
  Step-IsSound s s' (skip r j c zeroes h e) t v = set_worker-IsSound s t v j h _ (
      skip_zeroes-IsTrue sum size file fits some_size only not_zero seek (s.worker j) c zeroes
        forward (v.workers j h) e)
  Step-IsSound s s' (send r j m c h e) t v = set_worker-IsSound s t v j h _ (
      send_null-IsTrue sum size file fits some_size only not_zero (s.worker j) m c (v.workers j h)
        e)
  Step-IsSound s s' (again r j c h e) t v =
      set_worker-IsSound s t v j h _ (skip_next-IsTrue s t v j h c e)
  Step-IsSound s s' (close r j h e) t v = set_worker-IsSound s t v j h _ (
      stopped-IsTrue (s.worker j) closed (v.workers j h) refl
        (subst (IsTrueIn' (s.worker j)) e (v.workers j h).phase))
  Step-IsSound s s' (take r c cs e f) t v =
      accept-IsSound s t v s.at (omega (arith, t.at_lead, t.lead_below)) c cs f
  Step-IsSound s s' (advance r e f g) t v =
      behind_worker-IsSound s t v s.at (omega (arith, t.at_lead, t.lead_below))
