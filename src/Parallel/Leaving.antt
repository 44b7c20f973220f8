-- ===== src/Parallel/Leaving.antt =====
-- About the end of the loop of `start` in make.go, where a worker leaves its neighbour behind.
use desync.Common.{
  ℕ, ◌≤◌, ◌<◌, ◌≡◌, ◌≢◌, refl, fun_ext, sym, subst, inl, inr, List, [], ◌∷◌, ◌==◌, true, false,
  Bool-cases, ==_refl, ltb, arith,
}
use desync.Index.Defs.{IndexChunk}
use desync.Parallel.Defs.{top, sending, active, Worker, end_of}
use desync.Parallel.Invariant.{IsIn, IsIn-fields, IsWorker, IsDone, IsClear, Ends, IsMaking}
use desync.Parallel.Local.{put-all, IsLocal, local-IsMaking}
use desync.Parallel.Neighbour.{not_stopped, lead_before}
use desync.Parallel.System.{Making, put, set_worker, skip_next, is_empty}
use desync.Parallel.Work.{phase-IsLocal}

module _ (size : ℕ) (s : Making) (t : IsMaking size s) (j : ℕ) (here : j < s.count)
    (going : active (s.worker j).phase ≡ true) (k_below : (s.worker j).next < s.count)
    (done : IsDone (s.worker (s.worker j).next)) where
  abbrev k' : ℕ
  k' = (s.worker (s.worker j).next).next

  abbrev w' : Worker
  w' = record (s.worker j) { next = k' }

  abbrev ws : ℕ → Worker
  ws = put j w' s.worker

  further : ((s.worker j).next < k') × (k' ≤ s.count)
  further = t.after (s.worker j).next k_below

  still_done : (m : ℕ) → IsDone (s.worker m) → IsDone (ws m)
  still_done =
      put-all (λ m w. IsDone (s.worker m) → IsDone w) j w' s.worker
        (λ d. record { stopped = d.stopped; empty = d.empty }) (λ m e d. d)

  next_above : (m : ℕ) → (s.worker m).next ≤ (ws m).next
  next_above =
      put-all (λ m w. (s.worker m).next ≤ w.next) j w' s.worker (omega (arith, further))
        (λ m d. omega arith)

  kept : (m : ℕ) → j ≢ m → ws m ≡ s.worker m
  kept m e = let differ : (j == m) ≡ false = ground arith in rw differ refl

  kept_stopped : (m : ℕ) → active (s.worker m).phase ≡ false → ws m ≡ s.worker m
  kept_stopped m e = kept m (not_stopped size s t j here going m e)

  -- Who is between a worker and its new neighbour.
  between_new : (i : ℕ) → j < i → i < k' → IsDone (s.worker i) × ((s.worker i).next ≤ k')
  between_new i b n = elim (Bool-cases (ltb i (s.worker j).next)) [
    | inl before ↦ (
      t.between j i here b (ground arith),
      let p = t.nested j i here b (ground arith) in omega (arith, p, further),
    )
    | inr behind ↦ elim (Bool-cases ((s.worker j).next == i)) [
      | inl same ↦
          let e : (s.worker j).next ≡ i = ground arith in
          subst (λ i. IsDone (s.worker i) × ((s.worker i).next ≤ k')) e (done, omega arith)
      | inr differ ↦ (
        t.between (s.worker j).next i k_below (ground arith) n,
        t.nested (s.worker j).next i k_below (ground arith) n,
      )
    ]
  ]

  between_any :
      (m i : ℕ)
      → m < s.count
      → m < i
      → i < (ws m).next
      → IsDone (s.worker i) × ((s.worker i).next ≤ (ws m).next)
  between_any m i h =
      put-all
        (λ m w.
          m < s.count → m < i → i < w.next → IsDone (s.worker i) × ((s.worker i).next ≤ w.next))
        j w' s.worker (λ p b n. between_new i b n)
        (λ m e h b n. (t.between m i h b n, t.nested m i h b n)) m h

  IsClear-before : (m : ℕ) → IsClear ws m → IsClear s.worker m
  IsClear-before m c i h = let p = c i h in let q = next_above i in omega (arith, p, q)

  same_sync_at : (m : ℕ) → (ws m).sync ≡ (s.worker m).sync
  same_sync_at = put-all (λ m w. w.sync ≡ (s.worker m).sync) j w' s.worker refl (λ m d. refl)

  same_phase_at : (m : ℕ) → (ws m).phase ≡ (s.worker m).phase
  same_phase_at = put-all (λ m w. w.phase ≡ (s.worker m).phase) j w' s.worker refl (λ m d. refl)

  leave-Ends :
      (m : ℕ)
      → s.at ≤ m
      → m < s.count
      → active (ws m).phase ≡ false
      → IsClear ws m
      → Ends ws s.count (t.sent m) (ws m)
  leave-Ends m h b st c =
      let st' : active (s.worker m).phase ≡ false = rw (← same_phase_at m) st in
      subst (λ w. Ends ws s.count (t.sent m) w) (sym (kept_stopped m st'))
        (elim (t.ends m h b st' (IsClear-before m c)) [
          | inl e ↦ inl e
          | inr (inl e) ↦ inr (inl e)
          | inr (inr (n, z, e)) ↦
              let same = same_sync_at (s.worker m).next in inr (inr (n, rw same z, rw same e))
        ])

  pub leave-IsMaking : IsMaking size (record s { worker = ws })
  leave-IsMaking = record {
    front = t.front;
    sent = t.sent;
    lead = t.lead;
    workers =
        put-all (λ m w. IsWorker size (t.front m) (t.sent m) w) j w' s.worker
          (record {
            chain = (t.workers j).chain;
            phase =
                IsIn-fields size (t.sent j) k' (s.worker j).results (s.worker j) (s.worker j).phase
                  (t.workers j).phase;
            before_end = (t.workers j).before_end;
          })
          (λ m d. t.workers m);
    after =
        put-all (λ m w. m < s.count → (m < w.next) × (w.next ≤ s.count)) j w' s.worker
          (λ h. let p = t.after j h in omega (arith, p, further)) (λ m d. t.after m);
    between = λ m i h b n. still_done i (between_any m i h b n).0;
    nested = λ m i h b n. let (d, e) = between_any m i h b n in rw (kept_stopped i d.stopped) e;
    synced = λ m h. rw (same_sync_at m) (t.synced m h);
    ends = leave-Ends;
    below = λ m h. rw (same_phase_at m) (t.below m h);
    at_lead = t.at_lead;
    lead_below = t.lead_below;
    lead-IsClear = λ i h.
        rw (kept i (λ e. let p = lead_before size s t j here going in omega (arith, e, p)))
          (t.lead-IsClear i h);
    left = λ i h b. still_done i (t.left i h b);
    accepted = t.accepted;
    returned = λ e.
        subst (λ w. (w.eof ≡ true) × (w.results ≡ []) × (active w.phase ≡ false))
          (sym (kept_stopped s.at (t.returned e).2)) (t.returned e);
  }

-- A worker that only goes back to the top of its loop.
at_top-IsMaking :
    (size : ℕ) (s : Making) (t : IsMaking size s) (j : ℕ)
    → j < s.count
    → (w : Worker) → s.worker j ≡ w
    → (c : IndexChunk) → w.phase ≡ sending 0 c
    → IsMaking size (record s { worker = put j (record w { phase = top }) s.worker })
unfolding active end_of
at_top-IsMaking size s t j here w is_w c at_c =
    let v = subst (IsWorker size (t.front j) (t.sent j)) is_w (t.workers j) in
    let (valid, q, e) = subst (IsIn size (t.sent j) w) at_c v.phase in
    let going : active w.phase ≡ true = rw at_c refl in
    let top' = record w { phase = top } in
    let l =
      phase-IsLocal s.worker s.count size (t.front j) (t.sent j) w v going top refl
        (valid, omega (arith, e, q)) in
    local-IsMaking size s t j here (t.sent j) top'
      (subst (λ x. IsLocal s.worker s.count size x (t.front j) (t.sent j) top' (t.sent j))
        (sym is_w) l)
      s.stats

put-put : (j : ℕ) (a b : Worker) (f : ℕ → Worker) → put j a (put j b f) ≡ put j a f
put-put j a b f =
    fun_ext
      (λ m. elim (Bool-cases (j == m)) [ inl same ↦ rw same refl | inr differ ↦ rw differ refl ])

empty_is : (cs : List IndexChunk) → is_empty cs ≡ true → cs ≡ []
unfolding is_empty
empty_is [] e = refl
empty_is (c ∷ cs) e = cc

-- The end of the loop.
pub skip_next-IsMaking :
    (size : ℕ) (s : Making) (t : IsMaking size s) (j : ℕ) (c : IndexChunk)
    → j < s.count
    → (s.worker j).phase ≡ sending 0 c
    → IsMaking size (set_worker j (skip_next j s) s)
unfolding set_worker skip_next is_empty active
skip_next-IsMaking size s t j c here at_c =
    let w = s.worker j in
    let n = s.worker w.next in
    let stay_by = at_top-IsMaking size s t j here w refl c at_c in
    let going : active w.phase ≡ true = rw at_c refl in
    elim (Bool-cases (ltb w.next s.count)) [
      | inr last ↦ rw (skip_next, last) stay_by
      | inl some_next ↦ elim (Bool-cases (active n.phase)) [
        | inl busy ↦ rw (skip_next, some_next, busy) stay_by
        | inr stopped ↦ elim (Bool-cases (is_empty n.results)) [
          | inr full ↦ rw (skip_next, some_next, stopped, full) stay_by
          | inl drained ↦
              let done : IsDone n = record {
                stopped = stopped;
                empty = empty_is n.results drained;
              } in
              let w' = record w { next = n.next } in
              let back = record w { next = n.next; phase = top } in
              let left = leave-IsMaking size s t j here going (ground arith) done in
              let at_top =
                at_top-IsMaking size (record s { worker = put j w' s.worker }) left j here w'
                  (rw (==_refl j) refl) c at_c in
              let result : IsMaking size (record s { worker = put j back s.worker }) =
                subst (λ f. IsMaking size (record s { worker = f })) (put-put j back w' s.worker)
                  at_top in
              rw (skip_next, some_next, stopped, drained) result
        ]
      ]
    ]
