-- ===== src/Parallel/Assembling.antt =====
-- About the main routine of `IndexFromFile` in make.go, which assembles the index.
use desync.Common.{
  ℕ, suc, ◌≤◌, ◌<◌, ◌≡◌, refl, sym, subst, ◌∙◌, inl, inr, List, [], ◌∷◌, ◌++◌, ◌==◌, true, false,
  Bool-cases, Option-cases, ==_refl, Option, none, some, ltb, arith,
}
use desync.Index.Defs.{IndexChunk}
use desync.Parallel.Defs.{active, Worker, WorkError, end_of}
use desync.Parallel.Invariant.{IsIn-fields, IsWorker, IsDone, IsClear, Ends, IsMaking}
use desync.Parallel.Local.{put-all, put-both}
use desync.Parallel.Sync.{Chain, Chain-append}
use desync.Parallel.System.{Making, put, accept, behind_worker}

module _ (size : ℕ) (s : Making) (t : IsMaking size s) where
  module _ (c : IndexChunk) (cs : List IndexChunk) (going : s.result ≡ none)
      (full : (s.worker s.at).results ≡ c ∷ cs) where
    abbrev w' : Worker
    w' = record (s.worker s.at) { results = cs }

    abbrev ws : ℕ → Worker
    ws = put s.at w' s.worker

    leads : s.at ≡ t.lead
    leads = elim (Bool-cases (ltb s.at t.lead)) [
      | inl before ↦
          let d = t.left s.at (ground arith) (ground arith) in let e = d.empty in absurd cc
      | inr there ↦ let p = t.at_lead in ground arith
    ]

    chained : (c.start ≡ t.front s.at) × Chain (end_of c) cs (t.sent s.at)
    chained = subst (λ l. Chain (t.front s.at) l (t.sent s.at)) full (t.workers s.at).chain

    still_done : (m : ℕ) → IsDone (s.worker m) → IsDone (ws m)
    still_done =
        put-all (λ m w. IsDone (s.worker m) → IsDone w) s.at w' s.worker
          (λ d. let e = d.empty in absurd cc) (λ m e d. d)

    same_next_at : (m : ℕ) → (ws m).next ≡ (s.worker m).next
    same_next_at = put-all (λ m w. w.next ≡ (s.worker m).next) s.at w' s.worker refl (λ m d. refl)

    same_phase_at : (m : ℕ) → (ws m).phase ≡ (s.worker m).phase
    same_phase_at =
        put-all (λ m w. w.phase ≡ (s.worker m).phase) s.at w' s.worker refl (λ m d. refl)

    same_sync_at : (m : ℕ) → (ws m).sync ≡ (s.worker m).sync
    same_sync_at = put-all (λ m w. w.sync ≡ (s.worker m).sync) s.at w' s.worker refl (λ m d. refl)

    IsClear-before : (m : ℕ) → IsClear ws m → IsClear s.worker m
    IsClear-before m c i h = subst (λ n. n ≤ m) (same_next_at i) (c i h)

    take-Ends :
        (m : ℕ)
        → s.at ≤ m
        → m < s.count
        → active (ws m).phase ≡ false
        → IsClear ws m
        → Ends ws s.count (t.sent m) (ws m)
    take-Ends m h b st c =
        let st' : active (s.worker m).phase ≡ false = rw (← same_phase_at m) st in
        put-all (λ x w. Ends ws s.count (t.sent x) (s.worker x) → Ends ws s.count (t.sent x) w) s.at
          w' s.worker (λ e. e) (λ x d e. e) m
          (elim (t.ends m h b st' (IsClear-before m c)) [
            | inl e ↦ inl e
            | inr (inl e) ↦ inr (inl e)
            | inr (inr (n, z, e)) ↦
                let same = same_sync_at (s.worker m).next in inr (inr (n, rw same z, rw same e))
          ])

    here : put s.at (end_of c) t.front t.lead ≡ end_of c
    here = subst (λ l. put s.at (end_of c) t.front l ≡ end_of c) leads (rw (==_refl s.at) refl)

    pub accept-IsMaking : IsMaking size (accept c cs s)
    unfolding accept
    accept-IsMaking = record {
      front = put s.at (end_of c) t.front;
      sent = t.sent;
      lead = t.lead;
      workers =
          put-both (λ m w p. IsWorker size p (t.sent m) w) s.at w' (end_of c) s.worker t.front
            (record {
              chain = chained.1;
              phase =
                  IsIn-fields size (t.sent s.at) (s.worker s.at).next cs (s.worker s.at)
                    (s.worker s.at).phase (t.workers s.at).phase;
              before_end = (t.workers s.at).before_end;
            })
            (λ m d. t.workers m);
      after = λ m h. rw (same_next_at m) (t.after m h);
      between =
          λ m i h b n. still_done i (t.between m i h b (subst (λ k. i < k) (same_next_at m) n));
      nested = λ m i h b n.
          rw (same_next_at m, same_next_at i)
            (t.nested m i h b (subst (λ k. i < k) (same_next_at m) n));
      synced =
          put-both (λ m w p. s.at < m → 0 < w.sync.size → end_of w.sync ≡ p) s.at w' (end_of c)
            s.worker t.front (λ h. omega arith) (λ m d. t.synced m);
      ends = take-Ends;
      below = λ m h. rw (same_phase_at m) (t.below m h);
      at_lead = t.at_lead;
      lead_below = t.lead_below;
      lead-IsClear = λ i h. rw (same_next_at i) (t.lead-IsClear i h);
      left = λ i h b. still_done i (t.left i h b);
      accepted =
          subst (λ p. Chain 0 (s.chunks ++ (c ∷ [])) p) (sym here)
            (Chain-append 0 (t.front s.at) s.chunks c
              (subst (λ l. Chain 0 s.chunks (t.front l)) (sym leads) t.accepted) chained.0);
      returned = λ e. absurd cc;
    }

  module _ (going : s.result ≡ none) (empty : (s.worker s.at).results ≡ [])
      (stopped : active (s.worker s.at).phase ≡ false) (no_error : (s.worker s.at).error ≡ none)
      (not_eof : (s.worker s.at).eof ≡ false) where
    moved :
        (lead : ℕ)
        → s.at < lead
        → lead < s.count
        → IsClear s.worker lead
        → ((i : ℕ) → s.at < i → i < lead → IsDone (s.worker i))
        → Chain 0 s.chunks (t.front lead)
        → IsMaking size (record s { at = suc s.at })
    moved lead b n c l a = record {
      front = t.front;
      sent = t.sent;
      lead = lead;
      workers = t.workers;
      after = t.after;
      between = t.between;
      nested = t.nested;
      synced = λ j h. t.synced j (omega arith);
      ends = λ j h. t.ends j (omega arith);
      below = λ j h. elim (Bool-cases (s.at == j)) [
        | inl same ↦ subst (λ k. active (s.worker k).phase ≡ false) (ground arith) stopped
        | inr differ ↦ t.below j (ground arith)
      ];
      at_lead = b;
      lead_below = n;
      lead-IsClear = c;
      left = λ i h. l i (omega arith);
      accepted = a;
      returned = λ e. absurd cc;
    }

    IsClear-next :
        (k : ℕ)
        → s.at < k
        → s.at < s.count
        → IsClear s.worker s.at
        → (s.worker s.at).next ≡ k
        → IsClear s.worker k
    IsClear-next k b n c e i h = elim (Bool-cases (ltb i s.at)) [
      | inl before ↦ let p = c i (ground arith) in omega arith
      | inr behind ↦ elim (Bool-cases (s.at == i)) [
        | inl same ↦
            let here : s.at ≡ i = ground arith in
            subst (λ x. (s.worker x).next ≤ k) here (omega (arith, e))
        | inr differ ↦ let p = t.nested s.at i n (ground arith) (omega arith) in omega arith
      ]
    ]

    -- Where a worker has neither failed nor reached the end, the next one is there, and goes on.
    pass : (suc s.at < s.count) × IsMaking size (record s { at = suc s.at })
    pass = elim (Bool-cases (ltb s.at t.lead)) [
      | inl before ↦
          let b : s.at < t.lead = ground arith in
          (
            omega (arith, b, t.lead_below),
            moved t.lead b t.lead_below t.lead-IsClear (λ i h n. t.left i (omega arith) n)
                t.accepted,
          )
      | inr there ↦
          let leads : s.at ≡ t.lead = let p = t.at_lead in ground arith in
          let in_range : s.at < s.count = omega (arith, leads, t.lead_below) in
          let clear : IsClear s.worker s.at = subst (IsClear s.worker) (sym leads) t.lead-IsClear in
          elim (t.ends s.at (omega arith) in_range stopped clear) [
            | inl (e, h) ↦ absurd cc
            | inr (inl h) ↦ absurd cc
            | inr (inr (n, z, e)) ↦
                let k = (s.worker s.at).next in
                let further : s.at < k = (t.after s.at in_range).0 in
                let is_sent : t.front s.at ≡ t.sent s.at =
                  subst (λ l. Chain (t.front s.at) l (t.sent s.at)) empty (t.workers s.at).chain in
                let meets : t.front t.lead ≡ t.front k =
                  subst (λ l. t.front l ≡ t.front k) leads
                    (is_sent ∙ sym e ∙ t.synced k further z) in
                (
                  omega (arith, n, further),
                  moved k further n (IsClear-next k further in_range clear refl)
                      (λ i h b. t.between s.at i in_range h b)
                      (subst (λ p. Chain 0 s.chunks p) meets t.accepted),
                )
          ]
    ]

  returns :
      (r : Option (Option WorkError))
      → (r ≡ some none
          → ((s.worker s.at).eof ≡ true)
            × ((s.worker s.at).results ≡ [])
            × (active (s.worker s.at).phase ≡ false))
      → IsMaking size (record s { result = r })
  returns r h = record {
    front = t.front;
    sent = t.sent;
    lead = t.lead;
    workers = t.workers;
    after = t.after;
    between = t.between;
    nested = t.nested;
    synced = t.synced;
    ends = t.ends;
    below = t.below;
    at_lead = t.at_lead;
    lead_below = t.lead_below;
    lead-IsClear = t.lead-IsClear;
    left = t.left;
    accepted = t.accepted;
    returned = h;
  }

  pub behind_worker-IsMaking :
      s.result ≡ none
      → (s.worker s.at).results ≡ []
      → active (s.worker s.at).phase ≡ false
      → IsMaking size (behind_worker s)
  unfolding behind_worker
  behind_worker-IsMaking going empty stopped = elim (Option-cases (s.worker s.at).error) [
    | inr (e, failed) ↦ rw (behind_worker, failed) (returns (some (some e)) (λ h. absurd cc))
    | inl fine ↦ elim (Bool-cases (s.worker s.at).eof) [
      | inl at_end ↦
          rw (behind_worker, fine, at_end) (returns (some none) (λ h. (at_end, empty, stopped)))
      | inr more ↦
          let (below, t') = pass going empty stopped fine more in
          let b : ltb (suc s.at) s.count ≡ true = ground arith in
          rw (behind_worker, fine, more, b) t'
    ]
  ]
