-- ===== src/Parallel/Schedule.antt =====
-- Runs of `IndexFromFile` of make.go for a given order of turns.
use desync.Common.{
  ℕ, zero, suc, ◌<◌, ◌≡◌, refl, inl, inr, List, [], ◌∷◌, Bool, Bool-cases, Option, none, some, ltb,
  if◌then◌else◌, Option-cases, if-both, ◌∙◌, ◌≤◌, arith,
}
use desync.Chunk.Defs.{NullChunk}
use desync.Chunker.Source.{Source, ReadError}
use desync.Index.Defs.{IndexChunk}
use desync.Parallel.Defs.{
  Phase, top, produced, unsynced, sending, finished, closed, produce, skip_zeroes, send_null,
  is_closed,
}
use desync.Parallel.System.{
  Making, chunk, sync, no_sync, skip, send, again, close, take, advance, Reaches, then_step,
  count_produced, set_worker, synced, skip_next, accept, behind_worker,
}
use desync.Stream.Defs.{ChunkId}

module _ (sum : List ℕ → ChunkId) (seek : ℕ → Source → Option ReadError × Source)
    (nc : NullChunk) where
  -- What worker `j` does next.
  unfoldable pub turn_in : ℕ → Making → Phase → Making
  turn_in j s top =
      count_produced (produce sum (s.worker j)) (set_worker j (produce sum (s.worker j)) s)
  turn_in j s (produced c) =
      if ltb (s.worker j).next s.count
      then synced nc j c s
      else set_worker j (record (s.worker j) { phase = top }) s
  turn_in j s (unsynced c z) = set_worker j (skip_zeroes seek nc c z (s.worker j)) s
  turn_in j s (sending zero c) = set_worker j (skip_next j s) s
  turn_in j s (sending (suc m) c) = set_worker j (send_null nc m c (s.worker j)) s
  turn_in j s finished = set_worker j (record (s.worker j) { phase = closed }) s
  turn_in j s closed = s

  unfoldable pub turn : ℕ → Making → Making
  unfolding turn_in
  turn j s = turn_in j s (s.worker j).phase

  unfoldable pub main_turn_with : Making → List IndexChunk → Bool → Making
  main_turn_with s (c ∷ cs) at_end = accept c cs s
  main_turn_with s [] at_end = if at_end then behind_worker s else s

  -- What the main routine does next, as long as it has not returned.
  unfoldable pub main_turn : Making → Making
  unfolding main_turn_with
  main_turn s = elim s.result [
    | some r ↦ s
    | none ↦ main_turn_with s (s.worker s.at).results (is_closed (s.worker s.at).phase)
  ]

  unfoldable pub turns : ℕ → ℕ → Making → Making
  turns zero j s = s
  turns (suc n) j s = turns n j (turn j s)

  unfoldable pub main_turns : ℕ → Making → Making
  main_turns zero s = s
  main_turns (suc n) s = main_turns n (main_turn s)

  turn_in-count : (j : ℕ) (s : Making) (p : Phase) → (turn_in j s p).count ≡ s.count
  unfolding turn_in set_worker count_produced synced
  turn_in-count j s top = elim (Option-cases (produce sum (s.worker j)).error) [
    | inl fine ↦ rw (count_produced, fine) refl
    | inr (x, failed) ↦ rw (count_produced, failed) refl
  ]
  turn_in-count j s (produced c) =
      if-both (λ (x : Making). x.count ≡ s.count) (ltb (s.worker j).next s.count) refl refl
  turn_in-count j s (unsynced c z) = refl
  turn_in-count j s (sending zero c) = refl
  turn_in-count j s (sending (suc m) c) = refl
  turn_in-count j s finished = refl
  turn_in-count j s closed = refl

  module _ (s0 : Making)
      (next_in : (s : Making) (j : ℕ)
        → Reaches sum seek nc s0 s
        → j < s.count
        → (s.worker j).next ≤ s.count) where
    -- A turn is a step, or nothing.
    turn_in-Reaches :
        (j : ℕ) (s : Making) (p : Phase)
        → Reaches sum seek nc s0 s
        → j < s.count
        → (s.worker j).phase ≡ p
        → Reaches sum seek nc s0 (turn_in j s p)
    unfolding turn_in
    turn_in-Reaches j s top r h e = then_step s0 s _ r (chunk s j h e)
    turn_in-Reaches j s (produced c) r h e = elim (Bool-cases (ltb (s.worker j).next s.count)) [
      | inl some_next ↦ rw (turn_in, some_next) (then_step s0 s _ r (sync s j c h e (ground arith)))
      | inr last ↦
          let b = next_in s j r h in
          rw (turn_in, last) (then_step s0 s _ r (no_sync s j c h e (ground arith)))
    ]
    turn_in-Reaches j s (unsynced c z) r h e = then_step s0 s _ r (skip s j c z h e)
    turn_in-Reaches j s (sending zero c) r h e = then_step s0 s _ r (again s j c h e)
    turn_in-Reaches j s (sending (suc m) c) r h e = then_step s0 s _ r (send s j m c h e)
    turn_in-Reaches j s finished r h e = then_step s0 s _ r (close s j h e)
    turn_in-Reaches j s closed r h e = r

    pub turns-Reaches :
        (n j : ℕ) (s : Making)
        → Reaches sum seek nc s0 s
        → j < s.count
        → Reaches sum seek nc s0 (turns n j s) × ((turns n j s).count ≡ s.count)
    unfolding turns turn
    turns-Reaches zero j s r h = (r, refl)
    turns-Reaches (suc n) j s r h =
        let p = (s.worker j).phase in
        let same = turn_in-count j s p in
        let (r', e) =
          turns-Reaches n j (turn j s) (turn_in-Reaches j s p r h refl) (omega (arith, same)) in
        (r', e ∙ same)

    with_bucket :
        (s : Making)
        → Reaches sum seek nc s0 s
        → s.result ≡ none
        → (cs : List IndexChunk) → (s.worker s.at).results ≡ cs
        → (p : Phase) → (s.worker s.at).phase ≡ p
        → Reaches sum seek nc s0 (main_turn_with s cs (is_closed p))
    unfolding main_turn_with is_closed
    with_bucket s r g (c ∷ cs) e p q = then_step s0 s _ r (take s c cs g e)
    with_bucket s r g [] e closed q = then_step s0 s _ r (advance s g e q)
    with_bucket s r g [] e top q = r
    with_bucket s r g [] e (produced c) q = r
    with_bucket s r g [] e (unsynced c z) q = r
    with_bucket s r g [] e (sending m c) q = r
    with_bucket s r g [] e finished q = r

    main_turn-Reaches :
        (s : Making) → Reaches sum seek nc s0 s → Reaches sum seek nc s0 (main_turn s)
    unfolding main_turn
    main_turn-Reaches s r = elim (Option-cases s.result) [
      | inr (x, over) ↦ rw (main_turn, over) r
      | inl going ↦
          rw (main_turn, going)
            (with_bucket s r going (s.worker s.at).results refl (s.worker s.at).phase refl)
    ]

    pub main_turns-Reaches :
        (n : ℕ) (s : Making) → Reaches sum seek nc s0 s → Reaches sum seek nc s0 (main_turns n s)
    unfolding main_turns
    main_turns-Reaches zero s r = r
    main_turns-Reaches (suc n) s r = main_turns-Reaches n (main_turn s) (main_turn-Reaches s r)
