-- ===== src/Parallel/Local.antt =====
-- A step of make.go that changes one worker, which has not stopped, and no bucket but its own.
use desync.Common.{
  ℕ, ◌≤◌, ◌<◌, ◌≡◌, ◌≢◌, refl, sym, subst, ◌∙◌, inl, inr, [], ◌==◌, true, false, Bool-cases, arith,
}
use desync.Parallel.Defs.{active, Worker, end_of}
use desync.Parallel.Invariant.{IsWorker, IsDone, IsClear, Ends, IsMaking}
use desync.Parallel.System.{Making, ChunkingStats, put}

-- What holds for all but one, and for that one's new value, holds for all.
pub put-all :
    {A : Type 0} (P : ℕ → A → Type 0) (j : ℕ) (a : A) (f : ℕ → A)
    → P j a
    → ((m : ℕ) → j ≢ m → P m (f m))
    → (m : ℕ) → P m (put j a f m)
put-all P j a f here else_where m = elim (Bool-cases (j == m)) [
  | inl same ↦ let e : j ≡ m = ground arith in rw same (subst (λ k. P k a) e here)
  | inr differ ↦ rw differ (else_where m (λ e. ground arith))
]

-- The same for two functions.
pub put-both :
    {A B : Type 0} (P : ℕ → A → B → Type 0) (j : ℕ) (a : A) (b : B) (f : ℕ → A) (g : ℕ → B)
    → P j a b
    → ((m : ℕ) → j ≢ m → P m (f m) (g m))
    → (m : ℕ) → P m (put j a f m) (put j b g m)
put-both P j a b f g here else_where m = elim (Bool-cases (j == m)) [
  | inl same ↦ let e : j ≡ m = ground arith in rw same (subst (λ k. P k a b) e here)
  | inr differ ↦ rw differ (else_where m (λ e. ground arith))
]

-- What such a step does to a worker that has sent the chunks up to `sent`.
pub record IsLocal (ws : ℕ → Worker) (count size : ℕ) (w : Worker) (front sent : ℕ) (w' : Worker)
    (sent' : ℕ) : Type 0 where
  pub same_next : w'.next ≡ w.next
  pub same_sync : w'.sync ≡ w.sync
  pub valid : IsWorker size front sent' w'
  pub why : active w.phase ≡ true → active w'.phase ≡ false → Ends ws count sent' w'
  pub stays :
      active w.phase ≡ false
      → (active w'.phase ≡ false)
        × (w'.results ≡ w.results)
        × (w'.eof ≡ w.eof)
        × (w'.error ≡ w.error)
        × (sent' ≡ sent)

module _ (size : ℕ) (s : Making) (t : IsMaking size s) (j : ℕ) (here : j < s.count) (sent' : ℕ)
    (w' : Worker)
    (l : IsLocal s.worker s.count size (s.worker j) (t.front j) (t.sent j) w' sent') where
  abbrev ws : ℕ → Worker
  ws = put j w' s.worker

  same_next_at : (m : ℕ) → (put j w' s.worker m).next ≡ (s.worker m).next
  same_next_at = put-all (λ m w. w.next ≡ (s.worker m).next) j w' s.worker l.same_next (λ m d. refl)

  same_sync_at : (m : ℕ) → (put j w' s.worker m).sync ≡ (s.worker m).sync
  same_sync_at = put-all (λ m w. w.sync ≡ (s.worker m).sync) j w' s.worker l.same_sync (λ m d. refl)

  still_done : (m : ℕ) → IsDone (s.worker m) → IsDone (put j w' s.worker m)
  still_done m d =
      put-all (λ m w. IsDone (s.worker m) → IsDone w) j w' s.worker
        (λ d.
          let (p, r, f, e, q) = l.stays d.stopped in record { stopped = p; empty = r ∙ d.empty })
        (λ m e d. d) m d

  still_stopped :
      (m : ℕ) → active (s.worker m).phase ≡ false → active (put j w' s.worker m).phase ≡ false
  still_stopped m d =
      put-all (λ m w. active (s.worker m).phase ≡ false → active w.phase ≡ false) j w' s.worker
        (λ d. (l.stays d).0) (λ m e d. d) m d

  IsClear-before : (m : ℕ) → IsClear ws m → IsClear s.worker m
  IsClear-before m c i h = subst (λ n. n ≤ m) (same_next_at i) (c i h)

  linked_at :
      (n m p : ℕ)
      → n ≡ m
      → (0 < (s.worker m).sync.size) × (end_of (s.worker m).sync ≡ p)
      → (0 < (ws n).sync.size) × (end_of (ws n).sync ≡ p)
  linked_at n m p e h =
      subst (λ k. (0 < (ws k).sync.size) × (end_of (ws k).sync ≡ p)) (sym e) (rw (same_sync_at m) h)

  local-Ends :
      (m : ℕ)
      → s.at ≤ m
      → m < s.count
      → active (ws m).phase ≡ false
      → IsClear ws m
      → Ends ws s.count (put j sent' t.sent m) (ws m)
  local-Ends m h b stopped c =
      put-both
        (λ m w p.
          active w.phase ≡ false → s.at ≤ m → m < s.count → IsClear ws m → Ends ws s.count p w)
        j w' sent' s.worker t.sent
        (λ st h b c. elim (Bool-cases (active (s.worker j).phase)) [
          | inl going ↦ elim (l.why going st) [
            | inl e ↦ inl e
            | inr (inl e) ↦ inr (inl e)
            | inr (inr (n, z, e)) ↦
                let (z', e') = linked_at w'.next w'.next sent' refl (z, e) in inr (inr (n, z', e'))
          ]
          | inr before ↦
              let (p, r, f, e, q) = l.stays before in
              elim (t.ends j h b before (IsClear-before j c)) [
                | inl (x, g) ↦ inl (x, e ∙ g)
                | inr (inl g) ↦ inr (inl (f ∙ g))
                | inr (inr (n, z, g)) ↦
                    let (z', g') =
                      linked_at w'.next (s.worker j).next sent' l.same_next (z, g ∙ sym q) in
                    inr (inr (rw l.same_next n, z', g'))
              ]
        ])
        (λ m e st h b c. elim (t.ends m h b st (IsClear-before m c)) [
          | inl e ↦ inl e
          | inr (inl e) ↦ inr (inl e)
          | inr (inr (n, z, e)) ↦ inr (
              inr (n, rw (same_sync_at (s.worker m).next) z, rw (same_sync_at (s.worker m).next) e))
        ])
        m stopped h b c

  returned_at :
      (m : ℕ)
      → ((s.worker m).eof ≡ true)
        × ((s.worker m).results ≡ [])
        × (active (s.worker m).phase ≡ false)
      → ((ws m).eof ≡ true) × ((ws m).results ≡ []) × (active (ws m).phase ≡ false)
  returned_at m h =
      put-all
        (λ m w.
          active (s.worker m).phase ≡ false
          → (s.worker m).results ≡ []
          → (s.worker m).eof ≡ true
          → (w.eof ≡ true) × (w.results ≡ []) × (active w.phase ≡ false))
        j w' s.worker (λ p a b. let (x, r, f, e, q) = l.stays p in (f ∙ b, r ∙ a, x))
        (λ m d p a b. (b, a, p)) m h.2 h.1 h.0

  pub local-IsMaking :
      (x : ChunkingStats) → IsMaking size (record s { worker = put j w' s.worker; stats = x })
  local-IsMaking x = record {
    front = t.front;
    sent = put j sent' t.sent;
    lead = t.lead;
    workers =
        put-both (λ m w p. IsWorker size (t.front m) p w) j w' sent' s.worker t.sent l.valid
          (λ m d. t.workers m);
    after = λ m h. rw (same_next_at m) (t.after m h);
    between = λ m i h b n. still_done i (t.between m i h b (subst (λ k. i < k) (same_next_at m) n));
    nested = λ m i h b n.
        rw (same_next_at m, same_next_at i)
          (t.nested m i h b (subst (λ k. i < k) (same_next_at m) n));
    synced = λ m h. rw (same_sync_at m) (t.synced m h);
    ends = local-Ends;
    below = λ m h. still_stopped m (t.below m h);
    at_lead = t.at_lead;
    lead_below = t.lead_below;
    lead-IsClear = λ i h. rw (same_next_at i) (t.lead-IsClear i h);
    left = λ i h b. still_done i (t.left i h b);
    accepted = t.accepted;
    returned = λ e. returned_at s.at (t.returned e);
  }
