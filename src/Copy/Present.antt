-- ===== src/Copy/Present.antt =====
-- About the chunks that are in the store behind `Copy` of copy.go.
use desync.Common.{ℕ, length, ◌≡◌, refl, ap, subst, List, [], ◌∷◌, All, Bool, true, false}
use desync.Common.Outcome.{Outcome, ok, err, panic, out_of_fuel}
use desync.Chunk.Defs.{Chunk, StoreError}
use desync.Copy.{store_copy, after_has_chunk, copy_chunk, copy_chunks}
use desync.Store.Defs.{Store, WriteStore}
use desync.Stream.Defs.{ChunkId}

-- What the two stores promise, for `Has id w` that the target has a chunk in a state: the answer of
-- the target is right, storing what the source gave for an id puts it there, and nothing is lost.
pub record Promises {W : Type 0} (src : Store W) (dst : WriteStore W) (Has : ChunkId → W → Type 0)
    : Type 0 where
  pub answers :
      (id : ChunkId) (w : W) → (dst.has_chunk id w).0 ≡ ok true → Has id (dst.has_chunk id w).1
  pub stores :
      (id : ChunkId) (c : Chunk) (w w' : W)
      → src.get_chunk id w ≡ (ok c, w')
      → (dst.store_chunk c w').0 ≡ ok tt
      → Has id (dst.store_chunk c w').1
  pub asking_keeps : (j id : ChunkId) (w : W) → Has j w → Has j (dst.has_chunk id w).1
  pub getting_keeps : (j id : ChunkId) (w : W) → Has j w → Has j (src.get_chunk id w).1
  pub storing_keeps : (j : ChunkId) (c : Chunk) (w : W) → Has j w → Has j (dst.store_chunk c w).1

module _ {W : Type 0} (src : Store W) (dst : WriteStore W) (Has : ChunkId → W → Type 0)
    (promises : Promises src dst Has) where
  store_copy-keeps :
      (j : ChunkId) (a : Outcome StoreError Chunk × W) → Has j a.1 → Has j (store_copy src dst a).1
  unfolding store_copy
  store_copy-keeps j (ok c, w) h = promises.storing_keeps j c w h
  store_copy-keeps j (err e, w) h = h
  store_copy-keeps j (panic, w) h = h
  store_copy-keeps j (out_of_fuel, w) h = h

  after_has_chunk-keeps :
      (j id : ChunkId) (a : Outcome StoreError Bool × W)
      → Has j a.1
      → Has j (after_has_chunk src dst id a).1
  unfolding after_has_chunk
  after_has_chunk-keeps j id (ok true, w) h = h
  after_has_chunk-keeps j id (ok false, w) h =
      store_copy-keeps j (src.get_chunk id w) (promises.getting_keeps j id w h)
  after_has_chunk-keeps j id (err e, w) h = h
  after_has_chunk-keeps j id (panic, w) h = h
  after_has_chunk-keeps j id (out_of_fuel, w) h = h

  copy_chunk-keeps : (j id : ChunkId) (w : W) → Has j w → Has j (copy_chunk src dst id w).1
  unfolding copy_chunk
  copy_chunk-keeps j id w h =
      after_has_chunk-keeps j id (dst.has_chunk id w) (promises.asking_keeps j id w h)

  store_copy-Has :
      (id : ChunkId) (w : W) (a : Outcome StoreError Chunk × W)
      → src.get_chunk id w ≡ a
      → (store_copy src dst a).0 ≡ ok tt
      → Has id (store_copy src dst a).1
  unfolding store_copy
  store_copy-Has id w (ok c, w') got done = promises.stores id c w w' got done
  store_copy-Has id w (err e, w') got done = cc
  store_copy-Has id w (panic, w') got done = cc
  store_copy-Has id w (out_of_fuel, w') got done = cc

  after_has_chunk-Has :
      (id : ChunkId) (w : W) (a : Outcome StoreError Bool × W)
      → dst.has_chunk id w ≡ a
      → (after_has_chunk src dst id a).0 ≡ ok tt
      → Has id (after_has_chunk src dst id a).1
  unfolding after_has_chunk
  after_has_chunk-Has id w (ok true, w') asked done =
      subst (Has id) (ap (λ (x : Outcome StoreError Bool × W). x.1) asked)
        (promises.answers id w (ap (λ (x : Outcome StoreError Bool × W). x.0) asked))
  after_has_chunk-Has id w (ok false, w') asked done =
      store_copy-Has id w' (src.get_chunk id w') refl done
  after_has_chunk-Has id w (err e, w') asked done = cc
  after_has_chunk-Has id w (panic, w') asked done = cc
  after_has_chunk-Has id w (out_of_fuel, w') asked done = cc

  -- What one id leads to.
  copied_rest :
      (cancelled : ℕ → Bool) (id : ChunkId) (ids : List ChunkId) (w w' : W)
      (a : Outcome StoreError (Unit {0}) × W)
      → cancelled (length ids) ≡ false
      → copy_chunk src dst id w ≡ a
      → copy_chunks src dst cancelled (id ∷ ids) w ≡ (ok tt, w')
      → (a.0 ≡ ok tt) × (copy_chunks src dst cancelled ids a.1 ≡ (ok tt, w'))
  unfolding copy_chunks
  copied_rest cancelled id ids w w' (ok u, v) on one h =
      let step = rw (copy_chunks, on, one) at h in (refl, rw one at step)
  copied_rest cancelled id ids w w' (err e, v) on one h =
      let step = rw (copy_chunks, on, one) at h in
      let bad = ap (λ (x : Outcome StoreError (Unit {0}) × W). x.0) step in cc
  copied_rest cancelled id ids w w' (panic, v) on one h =
      let step = rw (copy_chunks, on, one) at h in
      let bad = ap (λ (x : Outcome StoreError (Unit {0}) × W). x.0) step in cc
  copied_rest cancelled id ids w w' (out_of_fuel, v) on one h =
      let step = rw (copy_chunks, on, one) at h in
      let bad = ap (λ (x : Outcome StoreError (Unit {0}) × W). x.0) step in cc

  copy_chunks-keeps :
      (cancelled : ℕ → Bool) (j : ChunkId) (ids : List ChunkId) (w w' : W)
      → ((k : ℕ) → cancelled k ≡ false)
      → copy_chunks src dst cancelled ids w ≡ (ok tt, w')
      → Has j w
      → Has j w'
  unfolding copy_chunks
  copy_chunks-keeps cancelled j [] w w' never h has =
      subst (Has j) (ap (λ (x : Outcome StoreError (Unit {0}) × W). x.1) h) has
  copy_chunks-keeps cancelled j (id ∷ ids) w w' never h has =
      let (done, rest) =
        copied_rest cancelled id ids w w' (copy_chunk src dst id w) (never (length ids)) refl h in
      copy_chunks-keeps cancelled j ids (copy_chunk src dst id w).1 w' never rest
        (copy_chunk-keeps j id w has)

  -- `Has id w` says that the target store has a chunk in a state. The context is never cancelled,
  -- the answers of the target are right, storing what the source gave for an id puts it there,
  -- and no call loses a chunk. Then after a copy that returns without an error the target has all
  -- the chunks of the list.
  pub copy_chunks-Has :
      (cancelled : ℕ → Bool) (ids : List ChunkId) (w w' : W)
      → ((k : ℕ) → cancelled k ≡ false)
      → copy_chunks src dst cancelled ids w ≡ (ok tt, w')
      → All (λ (id : ChunkId). Has id w') ids
  unfolding copy_chunks copy_chunk
  copy_chunks-Has cancelled [] w w' never h = tt
  copy_chunks-Has cancelled (id ∷ ids) w w' never h =
      let (done, rest) =
        copied_rest cancelled id ids w w' (copy_chunk src dst id w) (never (length ids)) refl h in
      (
        copy_chunks-keeps cancelled id ids (copy_chunk src dst id w).1 w' never rest
            (after_has_chunk-Has id w (dst.has_chunk id w) refl done),
        copy_chunks-Has cancelled ids (copy_chunk src dst id w).1 w' never rest,
      )
