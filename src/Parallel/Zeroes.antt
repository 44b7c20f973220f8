-- ===== src/Parallel/Zeroes.antt =====
-- The zero bytes that `syncWith` of make.go finds ahead of a worker.
use desync.Common.{
  ℕ, zero, suc, ◌+◌, ◌-◌, ◌%◌, ◌^◌, ◌≤◌, ◌<◌, ◌≡◌, ◌≢◌, refl, sym, ap, subst, ◌∙◌, List, [], ◌∷◌,
  length, take, drop, replicate, get_elem?, All, ltb, ◌==◌, Bool, true, false, ◌&&◌, Bool-cases,
  ◌⊎◌, inl, inr, some, if-both, length-take, length-drop, length-replicate, min, arith,
}
use desync.Chunk.Storage.{id_equal→eq}
use desync.Chunk.Defs.{NullChunk, id_equal, zero_id}
use desync.Index.Defs.{IndexChunk}
use desync.Parallel.Defs.{
  Worker, no_chunk, end_of, Synced, empty_handed, count_nulls, compare_with, catch_up, is_closed,
  sync_with,
}
use desync.Parallel.Sync.{Chain}
use desync.Stream.Defs.{ChunkId}

-- The bytes of a file from one position up to another are there, and zero.
abbrev pub IsZero : List ℕ → ℕ → ℕ → Type 0
IsZero file a b = (i : ℕ) → a ≤ i → i < b → get_elem? file i ≡ some 0

get_elem?-drop : (n i : ℕ) (xs : List ℕ) → get_elem? (drop n xs) i ≡ get_elem? xs (n + i)
get_elem?-drop zero i xs = ap (get_elem? xs) (omega arith)
get_elem?-drop (suc n) i [] = refl
get_elem?-drop (suc n) i (x ∷ xs) =
    get_elem?-drop n i xs ∙ ap (get_elem? (x ∷ xs)) {x = suc (n + i)} (omega arith)

zeroes-take : (n i : ℕ) (xs : List ℕ) → take n xs ≡ replicate n 0 → i < n → get_elem? xs i ≡ some 0
zeroes-take zero i xs e h = absurd (omega arith)
zeroes-take (suc n) i [] e h = cc
zeroes-take (suc n) zero (x ∷ xs) e h = cc
zeroes-take (suc n) (suc i) (x ∷ xs) e h =
    let rest : take n xs ≡ replicate n 0 = cc in zeroes-take n i xs rest (omega arith)

take-zeroes :
    (n : ℕ) (xs : List ℕ) → ((i : ℕ) → i < n → get_elem? xs i ≡ some 0) → take n xs ≡ replicate n 0
take-zeroes zero xs h = refl
take-zeroes (suc n) [] h = let e = h 0 (omega arith) in cc
take-zeroes (suc n) (x ∷ xs) h =
    let e = h 0 (omega arith) in let rest = take-zeroes n xs (λ i b. h (suc i) (omega arith)) in cc

get_elem?-below : (i : ℕ) (xs : List ℕ) → get_elem? xs i ≡ some 0 → i < length xs
get_elem?-below i [] e = cc
get_elem?-below zero (x ∷ xs) e = omega arith
get_elem?-below (suc i) (x ∷ xs) e = omega (arith, get_elem?-below i xs e)

pub IsZero-le : (file : List ℕ) (a b : ℕ) → IsZero file a b → a < b → b ≤ length file
IsZero-le file a zero z h = omega arith
IsZero-le file a (suc b) z h = get_elem?-below b file (z b (omega arith) (omega arith))

pub IsZero-bytes :
    (file : List ℕ) (a n : ℕ) → IsZero file a (a + n) → take n (drop a file) ≡ replicate n 0
IsZero-bytes file a n z =
    take-zeroes n (drop a file)
      (λ i h. get_elem?-drop a i file ∙ z (a + i) (omega arith) (omega arith))

pub bytes-IsZero :
    (file : List ℕ) (a n : ℕ) → take n (drop a file) ≡ replicate n 0 → IsZero file a (a + n)
bytes-IsZero file a n e i h b =
    let m : ℕ = i - a in
    let here : a + m ≡ i = omega arith in
    ap (get_elem? file) (sym here)
    ∙ sym (get_elem?-drop a m file)
    ∙ zeroes-take n m (drop a file) e (omega arith)

-- A chunk of the file, with the digest of its bytes.
abbrev pub IsChunkOf : (List ℕ → ChunkId) → List ℕ → IndexChunk → Type 0
IsChunkOf sum file c =
    (c.start + c.size ≤ length file) × (c.id ≡ sum (take c.size (drop c.start file)))

module _ (sum : List ℕ → ChunkId) (size : ℕ) (file : List ℕ) (fits : length file < 2 ^ 64)
    (some_size : 0 < size)
    (only : (b : List ℕ) → sum b ≡ sum (replicate size 0) → b ≡ replicate size 0)
    (not_zero : sum (replicate size 0) ≢ zero_id) where
  abbrev pub null : NullChunk
  null = record { content = replicate size 0; id = sum (replicate size 0) }

  -- A chunk with the id of the null chunk.
  null_is :
      (c : IndexChunk)
      → IsChunkOf sum file c
      → id_equal c.id null.id ≡ true
      → (c.size ≡ size) × IsZero file c.start (c.start + size)
  null_is c (b, e) h =
      let same : take c.size (drop c.start file) ≡ replicate size 0 =
        only (take c.size (drop c.start file)) (sym e ∙ id_equal→eq c.id null.id h) in
      let long : c.size ≡ size =
        sym (
          length-take c.size (drop c.start file)
          ∙ ap (min c.size) (length-drop c.start file)
          ∙ omega (arith, b))
        ∙ ap length same
        ∙ length-replicate size 0 in
      (
        long,
        bytes-IsZero file c.start size
            (subst (λ n. take n (drop c.start file) ≡ replicate size 0) long same),
      )

  abbrev pub IsKnown : IndexChunk → Type 0
  IsKnown c = (c ≡ no_chunk) ⊎ IsChunkOf sum file c

  -- What `syncWith` gives for a worker at `start`: as many zeroes as it says, and those of one null
  -- chunk more, are ahead of it.
  pub record IsSafe (start : ℕ) (r : Synced) : Type 0 where
    pub ahead : 0 < r.zeroes → IsZero file start (start + r.zeroes + size)
    pub known : IsKnown r.sync
    pub rest : All (IsChunkOf sum file) r.results

  known_null : (c : IndexChunk) → IsKnown c → id_equal c.id null.id ≡ true → IsChunkOf sum file c
  known_null c (inr k) h = k
  known_null c (inl e) h =
      absurd (not_zero (sym (id_equal→eq c.id null.id h) ∙ ap (λ (x : IndexChunk). x.id) e))

  empty_handed-IsSafe :
      (start : ℕ) (cl : Bool) (sync : IndexChunk) (n : ℕ)
      → (0 < n → IsZero file start (start + n + size))
      → IsKnown sync
      → IsSafe start (empty_handed cl sync n)
  unfolding empty_handed
  empty_handed-IsSafe start cl sync n z k = record {
    ahead = z;
    known = if-both IsKnown cl (inl refl) k;
    rest = tt;
  }

  join_zeroes : (a b c d : ℕ) → IsZero file a b → IsZero file c d → c ≤ b → IsZero file a d
  join_zeroes a b c d z z' h i l u = elim (Bool-cases (ltb i b)) [
    | inl before ↦ z i l (ground arith)
    | inr behind ↦ z' i (ground arith) u
  ]

  count_nulls-IsSafe :
      (cs : List IndexChunk) (start n front sent : ℕ) (cl : Bool) (sync : IndexChunk)
      → n + start ≡ sync.start
      → IsZero file start (sync.start + size)
      → IsChunkOf sum file sync
      → sync.size ≡ size
      → end_of sync ≡ front
      → Chain front cs sent
      → All (IsChunkOf sum file) cs
      → IsSafe start (count_nulls null cl n sync cs)
  unfolding count_nulls end_of
  count_nulls-IsSafe [] start n front sent cl sync e z k l m c a =
      let here : start + n + size ≡ sync.start + size = omega (arith, e) in
      empty_handed-IsSafe start cl sync n (λ p. rw here z) (inr k)
  count_nulls-IsSafe (d ∷ ds) start n front sent cl sync e z k l m (h, c) (k', a) =
      let here : start + n + size ≡ sync.start + size = omega (arith, e) in
      elim (Bool-cases (id_equal d.id null.id)) [
        | inl again ↦
            let (l', z') = null_is d k' again in
            let follows : d.start ≡ sync.start + size = omega (arith, h, m, l, k.0) in
            let more : (n + length null.content) % 2 ^ 64 + start ≡ d.start =
              let wide = length-replicate {A = ℕ} size 0 in omega (arith, wide, e, l, k.0) in
            rw (count_nulls, again)
              (count_nulls-IsSafe ds start ((n + length null.content) % 2 ^ 64) (end_of d) sent cl d
                more
                (join_zeroes start (sync.start + size) d.start (d.start + size) z z'
                  (omega (arith, follows)))
                k' l' refl c a)
        | inr over ↦
            rw (count_nulls, over) (record { ahead = λ p. rw here z; known = inr k'; rest = a })
      ]

  -- The chunk read before, if it is a null chunk, begins before `start`, and the next follows it.
  abbrev IsBefore : IndexChunk → IndexChunk → ℕ → Type 0
  IsBefore before sync start =
      id_equal before.id null.id ≡ true
      → IsChunkOf sum file before × (before.start < start) × (before.start + size ≡ sync.start)

  compare_with-IsSafe :
      (cl : Bool) (c before sync : IndexChunk) (cs : List IndexChunk) (front sent : ℕ)
      → ltb sync.start c.start ≡ false
      → IsBefore before sync c.start
      → IsKnown sync
      → (0 < sync.size → end_of sync ≡ front)
      → Chain front cs sent
      → All (IsChunkOf sum file) cs
      → IsSafe c.start (compare_with null cl c before sync cs)
  unfolding compare_with
  compare_with-IsSafe cl c before sync cs front sent past b k e t a =
      let stop : (m : Bool)
          → IsSafe c.start (record { matched = m; zeroes = 0; sync = sync; results = cs }) =
        λ m. record { ahead = λ p. absurd (omega arith); known = k; rest = a } in
      elim (Bool-cases ((c.start == sync.start) && (c.size == sync.size))) [
        | inl met ↦ rw (compare_with, met) (stop true)
        | inr differ ↦ elim (Bool-cases (id_equal sync.id null.id)) [
          | inr other ↦ rw (compare_with, differ, other) (stop false)
          | inl nulls ↦ elim (Bool-cases (id_equal before.id null.id)) [
            | inr other ↦ rw (compare_with, differ, nulls, other) (stop false)
            | inl both ↦
                let (kb, lower, meets) = b both in
                let ks = known_null sync k nulls in
                let (lb, zb) = null_is before kb both in
                let (ls, zs) = null_is sync ks nulls in
                let at_most : c.start ≤ sync.start = ground arith in
                let n : ℕ = (before.start + before.size + (2 ^ 64 - c.start)) % 2 ^ 64 in
                let count : n + c.start ≡ sync.start = omega (arith, lb, meets, at_most, ks.0) in
                let zeroes =
                  join_zeroes c.start (before.start + size) sync.start (sync.start + size)
                    (λ i l u. zb i (omega arith) u) zs (omega (arith, meets)) in
                rw (compare_with, differ, nulls, both)
                  (count_nulls-IsSafe cs c.start n front sent cl sync count zeroes ks ls
                    (e (omega (arith, ls))) t a)
          ]
        ]
      ]

  catch_up-IsSafe :
      (cl : Bool) (c : IndexChunk) (cs : List IndexChunk) (before sync : IndexChunk)
      (front sent : ℕ)
      → IsBefore before sync c.start
      → IsKnown sync
      → (0 < sync.size → end_of sync ≡ front)
      → Chain front cs sent
      → All (IsChunkOf sum file) cs
      → IsSafe c.start (catch_up null cl c before sync cs)
  unfolding catch_up end_of
  catch_up-IsSafe cl c [] before sync front sent b k e t a =
      elim (Bool-cases (ltb sync.start c.start)) [
        | inl short ↦
            rw (catch_up, short)
              (empty_handed-IsSafe c.start cl sync 0 (λ p. absurd (omega arith)) k)
        | inr past ↦
            rw (catch_up, past) (compare_with-IsSafe cl c before sync [] front sent past b k e t a)
      ]
  catch_up-IsSafe cl c (d ∷ ds) before sync front sent b k e (h, t) (kd, a) =
      elim (Bool-cases (ltb sync.start c.start)) [
        | inl short ↦
            let next_before : IsBefore sync d c.start = λ nulls.
              let ks = known_null sync k nulls in
              let (ls, zs) = null_is sync ks nulls in
              (ks, ground arith, let m = e (omega (arith, ls)) in omega (arith, m, h, ls, ks.0)) in
            rw (catch_up, short)
              (catch_up-IsSafe cl c ds sync d (end_of d) sent next_before (inr kd) (λ p. refl) t a)
        | inr past ↦
            rw (catch_up, past)
              (compare_with-IsSafe cl c before sync (d ∷ ds) front sent past b k e (h, t) (kd, a))
      ]

  pub sync_with-IsSafe :
      (w : Worker) (c : IndexChunk) (front sent : ℕ)
      → IsKnown w.sync
      → (0 < w.sync.size → end_of w.sync ≡ front)
      → Chain front w.results sent
      → All (IsChunkOf sum file) w.results
      → IsSafe c.start (sync_with null w c)
  unfolding sync_with
  sync_with-IsSafe w c front sent k e t a =
      catch_up-IsSafe (is_closed w.phase) c w.results no_chunk w.sync front sent
        (λ h. absurd (not_zero (sym (id_equal→eq zero_id null.id h)))) k e t a
