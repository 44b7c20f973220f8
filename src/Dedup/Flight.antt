-- ===== src/Dedup/Flight.antt =====
-- About the calls of the store that dedupqueue.go makes, and what its callers get.
use desync.Common.{
  ℕ, suc, ◌<◌, ◌≡◌, refl, sym, ap, subst, ◌∙◌, ◌⊎◌, inl, inr, ◌==◌, ==_refl, false, Bool-cases,
  Option, Option-cases, none, some, some_inj, if◌then◌else◌, arith,
}
use desync.Chunk.Defs.{id_equal}
use desync.Chunk.Storage.{id_equal→eq, id_equal_refl}
use desync.Dedup.Defs.{
  idle, asking, answered, marked, waiting, returned, Dedup, new_dedup_queue, store_request,
  mark_done, delete_request, Step, first, join, call, mark, drop_request, wait, Reaches, stay,
  then_step,
}
use desync.Dedup.Invariant.{IsLogged, Finishes, IsQueue, new_dedup_queue-IsQueue}
use desync.Dedup.Steps.{
  Keeps, callers-IsAt, Finishes-go_to, join-IsQueue, call-IsQueue, wait-IsQueue,
}
use desync.Stream.Defs.{ChunkId}

abbrev with_key : ℕ → ChunkId → (ℕ → ChunkId) → ℕ → ChunkId
with_key a id key b = if a == b then id else key b

abbrev with_owner : ℕ → ℕ → (ℕ → ℕ) → ℕ → ℕ
with_owner a n owner b = if a == b then n else owner b

older : (a b : ℕ) → b < a → (a == b) ≡ false
older a b h = ground arith

newer : (a b : ℕ) → b < suc a → (a == b) ≡ false → b < a
newer a b h differ = ground arith

module _ {R : Type 0} where
  first-Keeps :
      (q : Dedup R) (n : ℕ) (id : ChunkId) (m : ℕ)
      → q.requests id ≡ none
      → (h : IsQueue q)
      → Keeps h.key
          (with_key q.fresh id h.key)
          h.owner
          (with_owner q.fresh n h.owner)
          q
          (store_request n id q)
          m
  first-Keeps q n id m nothing h = record {
    requests = λ j a o e. elim (Bool-cases (id_equal id j)) [
      | inl same ↦
          let gone : q.requests j ≡ none = ap q.requests (sym (id_equal→eq id j same)) ∙ nothing in
          cc
      | inr differ ↦ rw differ e
    ];
    results = λ a x lt o e. rw (older q.fresh a lt) e;
    keys = λ a lt. rw (older q.fresh a lt) refl;
    owners = λ a lt. rw (older q.fresh a lt) refl;
    fresh = omega arith;
    logged = λ j r l. l;
  }

  first-IsQueue :
      (q : Dedup R) (n : ℕ) (id : ChunkId)
      → q.callers n ≡ idle
      → q.requests id ≡ none
      → IsQueue q
      → IsQueue (store_request n id q)
  first-IsQueue q n id at nothing h = record {
    key = with_key q.fresh id h.key;
    owner = with_owner q.fresh n h.owner;
    at =
        callers-IsAt h.key (with_key q.fresh id h.key) h.owner (with_owner q.fresh n h.owner) q
          (store_request n id q) n (asking id q.fresh) h.at
          (
            rw (id_equal_refl id) refl,
            rw (==_refl q.fresh) refl,
            rw (==_refl q.fresh) refl,
            omega arith,
            rw (==_refl q.fresh) refl,
          )
          (λ m differ. first-Keeps q n id m nothing h);
    known = λ j a e. elim (Bool-cases (id_equal id j)) [
      | inl same ↦
          let new : q.fresh ≡ a = some_inj (rw same at e) in
          (omega arith, rw (← new, ==_refl q.fresh) (id_equal→eq id j same))
      | inr differ ↦
          let (lt, key_is) = h.known j a (rw differ at e) in
          (omega arith, rw (older q.fresh a lt) key_is)
    ];
    pending = λ b lt e. elim (Bool-cases (q.fresh == b)) [
      | inl same ↦ rw (same, ==_refl n) (ground (arith, same))
      | inr differ ↦ rw differ (
          Finishes-go_to q n idle (asking id q.fresh) b (h.owner b) at (λ f. elim f [ ])
            (h.pending b (newer q.fresh b lt differ) (rw differ at e)))
    ];
    results_logged = λ b r lt e. elim (Bool-cases (q.fresh == b)) [
      | inl same ↦ let bad : ◌≡◌ {A = Option R} none (some r) = rw same at e in cc
      | inr differ ↦ rw differ (h.results_logged b r (newer q.fresh b lt differ) (rw differ at e))
    ];
  }

  mark-IsQueue :
      (q : Dedup R) (n : ℕ) (id : ChunkId) (a : ℕ) (r : R)
      → q.callers n ≡ answered id a r
      → IsQueue q
      → IsQueue (mark_done n id a r q)
  mark-IsQueue q n id a r at h =
      let ((h1, h2, h3, h4, h5), logged) = h.at n (answered id a r) at in
      record {
        key = h.key;
        owner = h.owner;
        at =
            callers-IsAt h.key h.key h.owner h.owner q (mark_done n id a r q) n (marked id a r) h.at
              ((h1, h2, h3, h4, rw (==_refl a) refl), logged)
              (λ m differ. record {
                requests = λ j b o e. e;
                results = λ b x lt o e. elim (Bool-cases (a == b)) [
                  | inl same ↦
                      let ab : a ≡ b = ground (arith, same) in
                      let nm : n ≡ m = sym h3 ∙ ap h.owner ab ∙ o in
                      let bad : ⊥ = ground (arith, differ, nm) in elim bad [ ]
                  | inr other ↦ rw other e
                ];
                keys = λ b lt. refl;
                owners = λ b lt. refl;
                fresh = omega arith;
                logged = λ j x l. l;
              });
        known = h.known;
        pending = λ b lt e. elim (Bool-cases (a == b)) [
          | inl same ↦ let bad : ◌≡◌ {A = Option R} (some r) none = rw same at e in cc
          | inr other ↦
              Finishes-go_to q n (answered id a r) (marked id a r) b (h.owner b) at
                (λ f. ground (arith, other, f)) (h.pending b lt (rw other at e))
        ];
        results_logged = λ b x lt e. elim (Bool-cases (a == b)) [
          | inl same ↦
              let ab : a ≡ b = ground (arith, same) in
              let rx : r ≡ x = some_inj (rw same at e) in
              subst (λ k. IsLogged (h.key k) x q.log) ab
                (subst (λ y. IsLogged (h.key a) y q.log) rx
                  (subst (λ j. IsLogged j r q.log) (sym h2) logged))
          | inr other ↦ h.results_logged b x lt (rw other at e)
        ];
      }

  drop-IsQueue :
      (q : Dedup R) (n : ℕ) (id : ChunkId) (a : ℕ) (r : R)
      → q.callers n ≡ marked id a r
      → IsQueue q
      → IsQueue (delete_request n id r q)
  drop-IsQueue q n id a r at h =
      let ((h1, h2, h3, h4, h5), logged) = h.at n (marked id a r) at in
      record {
        key = h.key;
        owner = h.owner;
        at =
            callers-IsAt h.key h.key h.owner h.owner q (delete_request n id r q) n (returned id r)
              h.at logged
              (λ m differ. record {
                requests = λ j b o e. elim (Bool-cases (id_equal id j)) [
                  | inl same ↦
                      let ab : a ≡ b =
                        some_inj (sym h1 ∙ ap q.requests (id_equal→eq id j same) ∙ e) in
                      let nm : n ≡ m = sym h3 ∙ ap h.owner ab ∙ o in
                      let bad : ⊥ = ground (arith, differ, nm) in elim bad [ ]
                  | inr other ↦ rw other e
                ];
                results = λ b x lt o e. e;
                keys = λ b lt. refl;
                owners = λ b lt. refl;
                fresh = omega arith;
                logged = λ j x l. l;
              });
        known = λ j b e. elim (Bool-cases (id_equal id j)) [
          | inl same ↦ let bad : ◌≡◌ {A = Option ℕ} none (some b) = rw same at e in cc
          | inr other ↦ h.known j b (rw other at e)
        ];
        pending = λ b lt e.
            Finishes-go_to q n (marked id a r) (returned id r) b (h.owner b) at (λ f. f)
              (h.pending b lt e);
        results_logged = h.results_logged;
      }

  Step-IsQueue : (q q' : Dedup R) → Step q q' → IsQueue q → IsQueue q'
  Step-IsQueue q q' (first _ n id at nothing) h = first-IsQueue q n id at nothing h
  Step-IsQueue q q' (join _ n id a at found) h = join-IsQueue q n id a at found h
  Step-IsQueue q q' (call _ n id a r at) h = call-IsQueue q n id a r at h
  Step-IsQueue q q' (mark _ n id a r at) h = mark-IsQueue q n id a r at h
  Step-IsQueue q q' (drop_request _ n id a r at) h = drop-IsQueue q n id a r at h
  Step-IsQueue q q' (wait _ n id a r at done) h = wait-IsQueue q n id a r at done h

  Reaches-IsQueue : (q q' : Dedup R) → Reaches q q' → IsQueue q → IsQueue q'
  Reaches-IsQueue q q' (stay _) h = h
  Reaches-IsQueue q q'' (then_step _ q' _ before st) h =
      Step-IsQueue q' q'' st (Reaches-IsQueue q q' before h)

  -- In every state that steps of the callers lead to, two callers that are in a call of the store
  -- for the same id are the same one.
  pub single_flight :
      (q : Dedup R) (n m : ℕ) (id : ChunkId) (a b : ℕ)
      → Reaches new_dedup_queue q
      → q.callers n ≡ asking id a
      → q.callers m ≡ asking id b
      → n ≡ m
  single_flight q n m id a b reached at_n at_m =
      let h = Reaches-IsQueue new_dedup_queue q reached new_dedup_queue-IsQueue in
      let (n1, n2, n3, n4, n5) = h.at n (asking id a) at_n in
      let (m1, m2, m3, m4, m5) = h.at m (asking id b) at_m in
      sym n3 ∙ ap h.owner (some_inj (sym n1 ∙ m1)) ∙ m3

  -- In every state that steps of the callers lead to, what a caller has returned for an id is
  -- what a call of the store for that id has returned.
  pub returned-IsLogged :
      (q : Dedup R) (n : ℕ) (id : ChunkId) (r : R)
      → Reaches new_dedup_queue q
      → q.callers n ≡ returned id r
      → IsLogged id r q.log
  returned-IsLogged q n id r reached at =
      (Reaches-IsQueue new_dedup_queue q reached new_dedup_queue-IsQueue).at n (returned id r) at

  -- In every state that steps of the callers lead to, if a caller waits for a request, the
  -- request has a result, or there is a caller that is in the call of the store for it or behind
  -- that call, and has the result still to give.
  pub waiting_ends :
      (q : Dedup R) (n : ℕ) (id : ChunkId) (a : ℕ)
      → Reaches new_dedup_queue q
      → q.callers n ≡ waiting id a
      → ((r : R) × (q.results a ≡ some r)) ⊎ ((m : ℕ) × Finishes a (q.callers m))
  waiting_ends q n id a reached at =
      let h = Reaches-IsQueue new_dedup_queue q reached new_dedup_queue-IsQueue in
      let (key_is, lt) = h.at n (waiting id a) at in
      elim (Option-cases (q.results a)) [
        | inl pending ↦ inr (h.owner a, h.pending a lt pending)
        | inr (r, done) ↦ inl (r, done)
      ]
