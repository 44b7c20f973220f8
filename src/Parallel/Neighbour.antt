-- ===== src/Parallel/Neighbour.antt =====
-- About what a worker of make.go does with its neighbour: it reads its bucket, or leaves it behind.
use desync.Common.{
  ℕ, ◌≤◌, ◌<◌, ◌≡◌, ◌≢◌, refl, sym, subst, inl, inr, [], ◌==◌, true, false, Bool-cases, ==_refl,
  ltb, arith,
}
use desync.Chunk.Defs.{NullChunk}
use desync.Index.Defs.{IndexChunk}
use desync.Parallel.Defs.{produced, unsynced, active, Worker, end_of, Synced, read_by, sync_with}
use desync.Parallel.Invariant.{IsIn, IsWorker, IsDone, IsClear, Ends, IsMaking}
use desync.Parallel.Local.{put-all, put-both, IsLocal, local-IsMaking}
use desync.Parallel.Work.{phase-IsLocal}
use desync.Parallel.Sync.{Chain, IsRead, sync_with-IsRead, sync_with-empty}
use desync.Parallel.System.{Making, put, behind_sync, synced}

module _ (size : ℕ) (s : Making) (t : IsMaking size s) (j : ℕ) (here : j < s.count)
    (going : active (s.worker j).phase ≡ true) where
  pub not_stopped : (m : ℕ) → active (s.worker m).phase ≡ false → j ≢ m
  not_stopped m h e = let h' : active (s.worker j).phase ≡ false = rw e h in cc

  pub not_below : s.at ≤ j
  not_below = elim (Bool-cases (ltb j s.at)) [
    | inl below ↦ absurd (not_stopped j (t.below j (ground arith)) refl)
    | inr above ↦ ground arith
  ]

  -- The worker that is to go on is not behind one that has not stopped.
  pub lead_before : t.lead ≤ j
  lead_before = elim (Bool-cases (ltb j t.lead)) [
    | inl below ↦ absurd (not_stopped j (t.left j not_below (ground arith)).stopped refl)
    | inr above ↦ ground arith
  ]

  -- No other worker waits for the neighbour of one that has not stopped.
  pub other_neighbours :
      (m : ℕ)
      → m < s.count
      → active (s.worker m).phase ≡ false
      → IsClear s.worker m
      → (s.worker m).next ≢ (s.worker j).next
  other_neighbours m b stopped clear e = elim (Bool-cases (ltb m j)) [
    | inl before ↦
        let p = t.after j here in
        absurd (not_stopped j (t.between m j b (ground arith) (omega (arith, e, p.0))).stopped refl)
    | inr behind ↦ elim (Bool-cases (j == m)) [
      | inl same ↦ absurd (not_stopped m stopped (ground arith))
      | inr differ ↦
          let p = t.after m b in let q = clear j (ground arith) in omega (arith, e, p.0, q)
    ]
  ]

  module _ (c : IndexChunk) (nc : NullChunk) (k_below : (s.worker j).next < s.count) where
    abbrev k : ℕ
    k = (s.worker j).next

    abbrev r : Synced
    r = sync_with nc (s.worker k) c

    k_behind : s.at < k
    k_behind = let p = t.after j here in omega (arith, p.0, not_below)

    got : IsRead c (t.sent k) r
    got =
        sync_with-IsRead nc (s.worker k) c (t.front k) (t.sent k) (t.workers k).chain
          (t.synced k k_behind)

    abbrev ws : ℕ → Worker
    ws = put k (read_by (s.worker k) r) s.worker

    same_next_at : (m : ℕ) → (ws m).next ≡ (s.worker m).next
    unfolding read_by
    same_next_at =
        put-all (λ m w. w.next ≡ (s.worker m).next) k (read_by (s.worker k) r) s.worker refl
          (λ m d. refl)

    same_phase_at : (m : ℕ) → (ws m).phase ≡ (s.worker m).phase
    unfolding read_by
    same_phase_at =
        put-all (λ m w. w.phase ≡ (s.worker m).phase) k (read_by (s.worker k) r) s.worker refl
          (λ m d. refl)

    still_done : (m : ℕ) → IsDone (s.worker m) → IsDone (ws m)
    unfolding read_by
    still_done =
        put-all (λ m w. IsDone (s.worker m) → IsDone w) k (read_by (s.worker k) r) s.worker
          (λ d. record { stopped = d.stopped; empty = sync_with-empty nc (s.worker k) c d.empty })
          (λ m e d. d)

    IsClear-before : (m : ℕ) → IsClear ws m → IsClear s.worker m
    IsClear-before m c i h = subst (λ n. n ≤ m) (same_next_at i) (c i h)

    not_read : (m : ℕ) → k ≢ m → ws m ≡ s.worker m
    not_read m e = let differ : (k == m) ≡ false = ground arith in rw differ refl

    front_kept : (m : ℕ) → k ≢ m → put k got.front t.front m ≡ t.front m
    front_kept m e = let differ : (k == m) ≡ false = ground arith in rw differ refl

    read-Ends :
        (m : ℕ)
        → s.at ≤ m
        → m < s.count
        → active (ws m).phase ≡ false
        → IsClear ws m
        → Ends ws s.count (t.sent m) (ws m)
    unfolding read_by
    read-Ends m h b st c =
        let st' : active (s.worker m).phase ≡ false = rw (← same_phase_at m) st in
        let clear = IsClear-before m c in
        let other = other_neighbours m b st' clear in
        put-all (λ x w. Ends ws s.count (t.sent x) (s.worker x) → Ends ws s.count (t.sent x) w) k
          (read_by (s.worker k) r) s.worker (λ e. e) (λ x d e. e) m
          (elim (t.ends m h b st' clear) [
            | inl e ↦ inl e
            | inr (inl e) ↦ inr (inl e)
            | inr (inr (n, z, e)) ↦
                let same = not_read (s.worker m).next (λ p. other (sym p)) in
                inr (inr (n, rw same z, rw same e))
          ])

    pub read-IsMaking : IsMaking size (record s { worker = ws })
    unfolding read_by
    read-IsMaking = record {
      front = put k got.front t.front;
      sent = t.sent;
      lead = t.lead;
      workers =
          put-both (λ m w p. IsWorker size p (t.sent m) w) k (read_by (s.worker k) r) got.front
            s.worker t.front
            (record {
              chain = got.rest;
              phase = (t.workers k).phase;
              before_end = (t.workers k).before_end;
            })
            (λ m d. t.workers m);
      after = λ m h. rw (same_next_at m) (t.after m h);
      between =
          λ m i h b n. still_done i (t.between m i h b (subst (λ k. i < k) (same_next_at m) n));
      nested = λ m i h b n.
          rw (same_next_at m, same_next_at i)
            (t.nested m i h b (subst (λ k. i < k) (same_next_at m) n));
      synced =
          put-both (λ m w p. s.at < m → 0 < w.sync.size → end_of w.sync ≡ p) k
            (read_by (s.worker k) r) got.front s.worker t.front (λ h. got.behind)
            (λ m d. t.synced m);
      ends = read-Ends;
      below = λ m h. rw (same_phase_at m) (t.below m h);
      at_lead = t.at_lead;
      lead_below = t.lead_below;
      lead-IsClear = λ i h. rw (same_next_at i) (t.lead-IsClear i h);
      left = λ i h b. still_done i (t.left i h b);
      accepted =
          subst (λ p. Chain 0 s.chunks p)
            (sym (front_kept t.lead (λ e. omega (arith, e, lead_before, (t.after j here).0))))
            t.accepted;
      returned = λ e.
          subst (λ w. (w.eof ≡ true) × (w.results ≡ []) × (active w.phase ≡ false))
            (sym (not_read s.at (λ e. omega (arith, e, k_behind)))) (t.returned e);
    }

    at_neighbour : ws k ≡ read_by (s.worker k) r
    at_neighbour = rw (==_refl k) refl

    self_kept : ws j ≡ s.worker j
    self_kept = not_read j (λ e. let p = t.after j here in omega (arith, e, p.0))

    behind_sync-IsLocal :
        (front : ℕ)
        → IsWorker size front (t.sent j) (s.worker j)
        → (s.worker j).phase ≡ produced c
        → IsLocal ws s.count size
            (s.worker j)
            front
            (t.sent j)
            (behind_sync (s.worker j) c r)
            (t.sent j)
    unfolding behind_sync active read_by end_of
    behind_sync-IsLocal front v at_c =
        let (valid, e, q, positive) = subst (IsIn size (t.sent j) (s.worker j)) at_c v.phase in
        elim (Bool-cases r.matched) [
          | inl met ↦
              let (same_start, same_size) = got.same met in
              let h = v.before_end going in
              let positive' : 0 < (ws k).sync.size = rw (at_neighbour, same_size) positive in
              let ends : end_of (ws k).sync ≡ t.sent j =
                rw (at_neighbour) (omega (arith, same_start, same_size, q)) in
              rw (behind_sync, met)
                (record {
                  same_next = refl;
                  same_sync = refl;
                  valid = record { chain = v.chain; phase = λ p. cc; before_end = λ p. cc };
                  why = λ p q. inr (inr (k_below, positive', ends));
                  stays = λ p. cc;
                })
          | inr differ ↦
              rw (behind_sync, differ)
                (phase-IsLocal ws s.count size front (t.sent j) (s.worker j) v going
                  (unsynced c r.zeroes) refl (valid, e, q))
        ]

    pub synced-IsMaking : (s.worker j).phase ≡ produced c → IsMaking size (synced nc j c s)
    unfolding synced read-IsMaking
    synced-IsMaking at_c =
        let v =
          subst (IsWorker size (put k got.front t.front j) (t.sent j)) self_kept
            (read-IsMaking.workers j) in
        local-IsMaking size (record s { worker = ws }) read-IsMaking j here (t.sent j)
          (behind_sync (s.worker j) c r)
          (subst
            (λ w.
              IsLocal ws s.count size w (read-IsMaking.front j) (t.sent j)
                (behind_sync (s.worker j) c r) (t.sent j))
            (sym self_kept) (behind_sync-IsLocal (read-IsMaking.front j) v at_c))
          s.stats
