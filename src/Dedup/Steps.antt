-- ===== src/Dedup/Steps.antt =====
-- About each step of a caller of dedupqueue.go.
use desync.Common.{
  ℕ, ◌≤◌, ◌<◌, ◌≡◌, refl, sym, ap, subst, ◌∙◌, inl, inr, ◌==◌, false, Bool-cases, Option, none,
  some, arith,
}
use desync.Dedup.Defs.{
  Caller, idle, asking, answered, marked, waiting, returned, Dedup, go_to, load_request, answer,
  wake,
}
use desync.Dedup.Invariant.{IsLogged, Owns, IsAt, Finishes, IsQueue}
use desync.Stream.Defs.{ChunkId}

module _ {R : Type 0} where
  -- What a step of another caller leaves of what this one relies on.
  pub record Keeps (key key' : ℕ → ChunkId) (owner owner' : ℕ → ℕ) (q q' : Dedup R) (n : ℕ)
      : Type 0 where
    pub requests :
        (id : ChunkId) (a : ℕ) → owner a ≡ n → q.requests id ≡ some a → q'.requests id ≡ some a
    pub results :
        (a : ℕ) (x : Option R) → a < q.fresh → owner a ≡ n → q.results a ≡ x → q'.results a ≡ x
    pub keys : (a : ℕ) → a < q.fresh → key' a ≡ key a
    pub owners : (a : ℕ) → a < q.fresh → owner' a ≡ owner a
    pub fresh : q.fresh ≤ q'.fresh
    pub logged : (id : ChunkId) (r : R) → IsLogged id r q.log → IsLogged id r q'.log

  Owns-Keeps :
      (key key' : ℕ → ChunkId) (owner owner' : ℕ → ℕ) (q q' : Dedup R) (n : ℕ) (id : ChunkId)
      (a : ℕ) (x : Option R)
      → Keeps key key' owner owner' q q' n
      → Owns key owner q n id a x
      → Owns key' owner' q' n id a x
  Owns-Keeps key key' owner owner' q q' n id a x k (h1, h2, h3, h4, h5) = (
    k.requests id a h3 h1,
    k.keys a h4 ∙ h2,
    k.owners a h4 ∙ h3,
    omega (arith, k.fresh),
    k.results a x h4 h3 h5,
  )

  IsAt-Keeps :
      (key key' : ℕ → ChunkId) (owner owner' : ℕ → ℕ) (q q' : Dedup R) (n : ℕ) (c : Caller R)
      → Keeps key key' owner owner' q q' n
      → IsAt key owner q n c
      → IsAt key' owner' q' n c
  IsAt-Keeps key key' owner owner' q q' n idle k h = tt
  IsAt-Keeps key key' owner owner' q q' n (asking id a) k h =
      Owns-Keeps key key' owner owner' q q' n id a none k h
  IsAt-Keeps key key' owner owner' q q' n (answered id a r) k (h, l) =
      (Owns-Keeps key key' owner owner' q q' n id a none k h, k.logged id r l)
  IsAt-Keeps key key' owner owner' q q' n (marked id a r) k (h, l) =
      (Owns-Keeps key key' owner owner' q q' n id a (some r) k h, k.logged id r l)
  IsAt-Keeps key key' owner owner' q q' n (waiting id a) k (h, lt) =
      (k.keys a lt ∙ h, omega (arith, k.fresh))
  IsAt-Keeps key key' owner owner' q q' n (returned id r) k h = k.logged id r h

  -- Where the callers are behind a step of caller `n`.
  pub callers-IsAt :
      (key key' : ℕ → ChunkId) (owner owner' : ℕ → ℕ) (q q' : Dedup R) (n : ℕ) (new : Caller R)
      → ((m : ℕ) (c : Caller R) → q.callers m ≡ c → IsAt key owner q m c)
      → IsAt key' owner' q' n new
      → ((m : ℕ) → (n == m) ≡ false → Keeps key key' owner owner' q q' m)
      → (m : ℕ) (c : Caller R) → go_to n new q m ≡ c
      → IsAt key' owner' q' m c
  callers-IsAt key key' owner owner' q q' n new before here keeps m c e =
      elim (Bool-cases (n == m)) [
        | inl same ↦
            let n_is : n ≡ m = ground (arith, same) in
            let c_is : new ≡ c = rw same at e in
            subst (IsAt key' owner' q' m) c_is (subst (λ k. IsAt key' owner' q' k new) n_is here)
        | inr differ ↦
            IsAt-Keeps key key' owner owner' q q' m c (keeps m differ) (before m c (rw differ at e))
      ]

  -- A request that is pending stays so when its owner goes on, or another caller does.
  pub Finishes-go_to :
      (q : Dedup R) (n : ℕ) (old new : Caller R) (a m : ℕ)
      → q.callers n ≡ old
      → (Finishes a old → Finishes a new)
      → Finishes a (q.callers m)
      → Finishes a (go_to n new q m)
  Finishes-go_to q n old new a m at on h = elim (Bool-cases (n == m)) [
    | inl same ↦
        let n_is : n ≡ m = ground (arith, same) in
        rw same (on (subst (Finishes a) (ap q.callers (sym n_is) ∙ at) h))
    | inr differ ↦ rw differ h
  ]

  -- The steps that change neither the map nor the results.
  quiet-Keeps :
      (key : ℕ → ChunkId) (owner : ℕ → ℕ) (q q' : Dedup R) (n : ℕ)
      → q.requests ≡ q'.requests
      → q.results ≡ q'.results
      → q.fresh ≡ q'.fresh
      → ((id : ChunkId) (r : R) → IsLogged id r q.log → IsLogged id r q'.log)
      → Keeps key key owner owner q q' n
  quiet-Keeps key owner q q' n e1 e2 e3 l = record {
    requests = λ id a o h. ap (λ (f : ChunkId → Option ℕ). f id) (sym e1) ∙ h;
    results = λ a x lt o h. ap (λ (f : ℕ → Option R). f a) (sym e2) ∙ h;
    keys = λ a lt. refl;
    owners = λ a lt. refl;
    fresh = omega (arith, e3);
    logged = l;
  }

  pub join-IsQueue :
      (q : Dedup R) (n : ℕ) (id : ChunkId) (a : ℕ)
      → q.callers n ≡ idle
      → q.requests id ≡ some a
      → IsQueue q
      → IsQueue (load_request n id a q)
  join-IsQueue q n id a at found h = record {
    key = h.key;
    owner = h.owner;
    at =
        callers-IsAt h.key h.key h.owner h.owner q (load_request n id a q) n (waiting id a) h.at
          ((h.known id a found).1, (h.known id a found).0)
          (λ m differ.
            quiet-Keeps h.key h.owner q (load_request n id a q) m refl refl refl (λ j r l. l));
    known = h.known;
    pending = λ b lt e.
        Finishes-go_to q n idle (waiting id a) b (h.owner b) at (λ f. f) (h.pending b lt e);
    results_logged = h.results_logged;
  }

  pub call-IsQueue :
      (q : Dedup R) (n : ℕ) (id : ChunkId) (a : ℕ) (r : R)
      → q.callers n ≡ asking id a
      → IsQueue q
      → IsQueue (answer n id a r q)
  call-IsQueue q n id a r at h = record {
    key = h.key;
    owner = h.owner;
    at =
        callers-IsAt h.key h.key h.owner h.owner q (answer n id a r q) n (answered id a r) h.at
          (h.at n (asking id a) at, inl (refl, refl))
          (λ m differ.
            quiet-Keeps h.key h.owner q (answer n id a r q) m refl refl refl (λ j x l. inr l));
    known = h.known;
    pending = λ b lt e.
        Finishes-go_to q n (asking id a) (answered id a r) b (h.owner b) at (λ f. f)
          (h.pending b lt e);
    results_logged = λ b x lt e. inr (h.results_logged b x lt e);
  }

  pub wait-IsQueue :
      (q : Dedup R) (n : ℕ) (id : ChunkId) (a : ℕ) (r : R)
      → q.callers n ≡ waiting id a
      → q.results a ≡ some r
      → IsQueue q
      → IsQueue (wake n id r q)
  wait-IsQueue q n id a r at done h =
      let (key_is, lt) = h.at n (waiting id a) at in
      record {
        key = h.key;
        owner = h.owner;
        at =
            callers-IsAt h.key h.key h.owner h.owner q (wake n id r q) n (returned id r) h.at
              (subst (λ j. IsLogged j r q.log) key_is (h.results_logged a r lt done))
              (λ m differ.
                quiet-Keeps h.key h.owner q (wake n id r q) m refl refl refl (λ j x l. l));
        known = h.known;
        pending = λ b lt e.
            Finishes-go_to q n (waiting id a) (returned id r) b (h.owner b) at (λ f. f)
              (h.pending b lt e);
        results_logged = h.results_logged;
      }
