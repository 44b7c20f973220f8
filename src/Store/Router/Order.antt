-- ===== src/Store/Router/Order.antt =====
-- About `GetChunk` of storerouter.go and the order of the stores.
use desync.Common.{List, [], ◌∷◌, ◌++◌, false, ◌∙◌, ◌↔◌, ◌≡◌, refl, arith}
use desync.Common.Outcome.{Outcome, ok, err}
use desync.Chunk.Defs.{Chunk, StoreError, chunk_missing, wrapped}
use desync.Store.Defs.{Store, is_chunk_missing}
use desync.Store.Router.{get_from, get_chunk}
use desync.Stream.Defs.{ChunkId}

module _ {W : Type 0} where
  -- The store says that the chunk is missing, and leaves the state `w'`.
  abbrev pub Misses : Store W → ChunkId → W → W → Type 0
  Misses s id w w' = (j : ChunkId) × (s.get_chunk id w ≡ (err (chunk_missing j), w'))

  -- All of the stores miss the chunk, one after the other.
  abbrev pub AllMiss : List (Store W) → ChunkId → W → W → Type 0
  AllMiss [] id w w' = w ≡ w'
  AllMiss (s ∷ stores) id w w' = (v : W) × Misses s id w v × AllMiss stores id v w'

  get_from_passes :
      (front back : List (Store W)) (id : ChunkId) (w w' : W)
      → AllMiss front id w w'
      → get_from (front ++ back) id w ≡ get_from back id w'
  unfolding get_from is_chunk_missing
  get_from_passes [] back id w w' h = ground arith
  get_from_passes (s ∷ front) back id w w' (v, (j, e), h) =
      ground (arith, get_from_passes front back id v w' h)

  -- If the stores in front miss the chunk and the next one has it, the router returns that chunk,
  -- in the state that this store leaves: the stores behind are not asked.
  get_chunk_first :
      (front back : List (Store W)) (s : Store W) (id : ChunkId) (c : Chunk) (w v w' : W)
      → AllMiss front id w v
      → s.get_chunk id v ≡ (ok c, w')
      → get_chunk (record { stores = front ++ (s ∷ back) }) id w ≡ (ok c, w')
  unfolding get_chunk get_from
  get_chunk_first front back s id c w v w' h e =
      get_from_passes front (s ∷ back) id w v h ∙ ground arith

  -- If the stores in front miss the chunk and the next one gives another error, this is returned,
  -- wrapped, and the stores behind are not asked, though one may have the chunk.
  get_chunk_fails :
      (front back : List (Store W)) (s : Store W) (id : ChunkId) (e : StoreError) (w v w' : W)
      → AllMiss front id w v
      → s.get_chunk id v ≡ (err e, w')
      → is_chunk_missing e ≡ false
      → get_chunk (record { stores = front ++ (s ∷ back) }) id w ≡ (err (wrapped e), w')
  unfolding get_chunk get_from
  get_chunk_fails front back s id e w v w' h p q =
      get_from_passes front (s ∷ back) id w v h ∙ ground arith

  -- One step back from a search that ended with a missing chunk.
  missed_first :
      (s : Store W) (stores : List (Store W)) (id j : ChunkId) (w w' : W)
      (r : Outcome StoreError Chunk × W)
      → s.get_chunk id w ≡ r
      → get_from (s ∷ stores) id w ≡ (err (chunk_missing j), w')
      → (v : W) × Misses s id w v × (get_from stores id v ≡ (err (chunk_missing j), w'))
  unfolding get_from is_chunk_missing
  missed_first s stores id j w w' (err (chunk_missing k), v) e h = (v, (k, e), ground arith)
  missed_first s stores id j w w' r e h = absurd (ground arith)

  -- The router says that a chunk is missing if, and only if, every store said so, one after the
  -- other, and the id is the one asked for.
  pub get_chunk_missing_iff :
      (stores : List (Store W)) (id j : ChunkId) (w w' : W)
      → (get_chunk (record { stores = stores }) id w ≡ (err (chunk_missing j), w'))
        ↔ (AllMiss stores id w w' × (id ≡ j))
  unfolding get_chunk get_from is_chunk_missing
  get_chunk_missing_iff [] id j w w' = (λ h. (ground arith, ground arith), λ h. ground arith)
  get_chunk_missing_iff (s ∷ stores) id j w w' = (
    λ h.
        let (v, miss, h') = missed_first s stores id j w w' _ refl h in
        let (all, same) = (get_chunk_missing_iff stores id j v w').0 h' in ((v, miss, all), same),
    λ ((v, (k, e), all), same).
        ground (arith, (get_chunk_missing_iff stores id j v w').1 (all, same)),
  )
