-- ===== src/Parallel/Sync.antt =====
-- What `syncWith` of make.go leaves of the bucket that it reads.
use desync.Common.{
  ℕ, ◌+◌, ◌-◌, ◌%◌, ◌^◌, ◌<◌, ◌≡◌, refl, sym, ◌∙◌, List, [], ◌∷◌, ◌++◌, length, ltb, ◌==◌, Bool,
  true, ◌&&◌, Bool-cases, if-both, inl, inr, arith,
}
use desync.Chunk.Defs.{NullChunk, id_equal}
use desync.Index.Defs.{IndexChunk}
use desync.Parallel.Defs.{
  Worker, no_chunk, end_of, Synced, empty_handed, count_nulls, compare_with, catch_up, is_closed,
  sync_with,
}

-- Chunks that follow one another, in offsets that wrap.
abbrev pub Chain : ℕ → List IndexChunk → ℕ → Type 0
Chain p [] q = p ≡ q
Chain p (c ∷ cs) q = (c.start ≡ p) × Chain (end_of c) cs q

pub Chain-append :
    (p q : ℕ) (cs : List IndexChunk) (c : IndexChunk)
    → Chain p cs q
    → c.start ≡ q
    → Chain p (cs ++ (c ∷ [])) (end_of c)
Chain-append p q [] c t e = (e ∙ sym t, refl)
Chain-append p q (d ∷ cs) c (h, t) e = (h, Chain-append (end_of d) q cs c t e)

-- A chunk that was read last, unless it is none, ends where the rest of the bucket begins; and if it
-- is said to match, it begins and ends like the one asked for.
pub record IsRead (c : IndexChunk) (sent : ℕ) (r : Synced) : Type 0 where
  pub front : ℕ
  pub rest : Chain front r.results sent
  pub behind : 0 < r.sync.size → end_of r.sync ≡ front
  pub same : r.matched ≡ true → (r.sync.start ≡ c.start) × (r.sync.size ≡ c.size)

module _ (nc : NullChunk) (is_closed : Bool) (c : IndexChunk) (sent : ℕ) where
  empty_handed-IsRead :
      (sync : IndexChunk) (n front : ℕ)
      → front ≡ sent
      → (0 < sync.size → end_of sync ≡ front)
      → IsRead c sent (empty_handed is_closed sync n)
  unfolding empty_handed
  empty_handed-IsRead sync n front t b = record {
    front = front;
    rest = t;
    behind = λ h. ground arith;
    same = λ h. cc;
  }

  count_nulls-IsRead :
      (cs : List IndexChunk) (n front : ℕ) (sync : IndexChunk)
      → Chain front cs sent
      → (0 < sync.size → end_of sync ≡ front)
      → IsRead c sent (count_nulls nc is_closed n sync cs)
  unfolding count_nulls
  count_nulls-IsRead [] n front sync t b = empty_handed-IsRead sync n front t b
  count_nulls-IsRead (d ∷ ds) n front sync (h, t) b =
      if-both (IsRead c sent) (id_equal d.id nc.id)
        (count_nulls-IsRead ds ((n + length nc.content) % 2 ^ 64) (end_of d) d t (λ p. refl))
        (record { front = end_of d; rest = t; behind = λ p. refl; same = λ p. cc })

  compare_with-IsRead :
      (before sync : IndexChunk) (cs : List IndexChunk) (front : ℕ)
      → Chain front cs sent
      → (0 < sync.size → end_of sync ≡ front)
      → IsRead c sent (compare_with nc is_closed c before sync cs)
  unfolding compare_with
  compare_with-IsRead before sync cs front t b =
      let n : ℕ = (before.start + before.size + (2 ^ 64 - c.start)) % 2 ^ 64 in
      elim (Bool-cases ((c.start == sync.start) && (c.size == sync.size))) [
        | inl met ↦
            rw (compare_with, met)
              (record { front = front; rest = t; behind = b; same = λ p. ground arith })
        | inr differ ↦
            rw (compare_with, differ)
              (if-both (IsRead c sent) (id_equal sync.id nc.id && id_equal before.id nc.id)
                (count_nulls-IsRead cs n front sync t b)
                (record { front = front; rest = t; behind = b; same = λ p. cc }))
      ]

  catch_up-IsRead :
      (cs : List IndexChunk) (before sync : IndexChunk) (front : ℕ)
      → Chain front cs sent
      → (0 < sync.size → end_of sync ≡ front)
      → IsRead c sent (catch_up nc is_closed c before sync cs)
  unfolding catch_up
  catch_up-IsRead [] before sync front t b =
      if-both (IsRead c sent) (ltb sync.start c.start) (empty_handed-IsRead sync 0 front t b)
        (compare_with-IsRead before sync [] front t b)
  catch_up-IsRead (d ∷ ds) before sync front (h, t) b =
      if-both (IsRead c sent) (ltb sync.start c.start)
        (catch_up-IsRead ds sync d (end_of d) t (λ p. refl))
        (compare_with-IsRead before sync (d ∷ ds) front (h, t) b)

pub sync_with-IsRead :
    (nc : NullChunk) (w : Worker) (c : IndexChunk) (front sent : ℕ)
    → Chain front w.results sent
    → (0 < w.sync.size → end_of w.sync ≡ front)
    → IsRead c sent (sync_with nc w c)
unfolding sync_with
sync_with-IsRead nc w c front sent t b =
    catch_up-IsRead nc (is_closed w.phase) c sent w.results no_chunk w.sync front t b

-- From an empty bucket nothing is read.
pub sync_with-empty :
    (nc : NullChunk) (w : Worker) (c : IndexChunk)
    → w.results ≡ []
    → (sync_with nc w c).results ≡ []
unfolding sync_with catch_up compare_with count_nulls empty_handed
sync_with-empty nc w c e = let r = is_closed w.phase in rw e (ground arith)
