-- ===== src/Chunk/Storage.antt =====
-- About the check of ids in chunk.go, and the storage format of chunk.go and coverter.go.
use desync.Common.{
  ℕ, List, [], ◌∷◌, length, ◌==◌, Bool, Bool-cases, ap, true, false, ◌≡◌, ◌≢◌, refl, ◌⊎◌, inl, inr,
  arith, Option, some, none, Option-cases,
}
use desync.Common.Outcome.{ok, err}
use desync.Chunk.Defs.{
  chunk_invalid, Converter, compressor, Chunk, Convert, id_equal, zero_id, converters_equal,
  layer_to_storage, layer_from_storage, to_storage, from_storage, data_of, storage_of, id_of,
  new_chunk, new_chunk_from_storage,
}
use desync.Stream.Defs.{ChunkId}

pub id_equal_refl : (a : ChunkId) → id_equal a a ≡ true
unfolding id_equal
id_equal_refl [] = refl
id_equal_refl (x ∷ xs) = ground (arith, id_equal_refl xs)

pub id_equal→eq : (a b : ChunkId) → id_equal a b ≡ true → a ≡ b
unfolding id_equal
id_equal→eq [] [] h = refl
id_equal→eq [] (y ∷ ys) h = cc
id_equal→eq (x ∷ xs) [] h = cc
id_equal→eq (x ∷ xs) (y ∷ ys) h = ground (arith, id_equal→eq xs ys)

converters_equal_refl : (cs : List Converter) → converters_equal cs cs ≡ true
unfolding converters_equal
converters_equal_refl [] = refl
converters_equal_refl (compressor ∷ cs) = converters_equal_refl cs

module _ (compress decompress : Convert) (sum : List ℕ → ChunkId) where
  from_storage_cases :
      (modifiers : List Converter) (id : ChunkId) (y : ℕ) (ys : List ℕ) (c : Chunk)
      → new_chunk_from_storage compress decompress sum id (y ∷ ys) modifiers false ≡ ok c
      → (o : Option (List ℕ)) → from_storage compress decompress modifiers (y ∷ ys) ≡ o
      → ((x : List ℕ) × ((data_of compress decompress c).0 ≡ ok x) × (sum x ≡ id)) ⊎ (id ≡ zero_id)
  unfolding new_chunk_from_storage id_of data_of
  from_storage_cases modifiers id y ys c h (some []) e =
      inl ([], ground (arith), ground (arith, id_equal→eq (sum []) id))
  from_storage_cases modifiers id y ys c h (some (x ∷ xs)) e =
      inl (x ∷ xs, ground arith, ground (arith, id_equal→eq (sum (x ∷ xs)) id))
  from_storage_cases modifiers id y ys c h none e = inr (ground (arith, id_equal→eq zero_id id))

  -- If a chunk is built from storage data and verified, it gives data of which the digest is the
  -- expected id; or the expected id is the zero id, which stands for a chunk without data.
  pub new_chunk_from_storage_sound :
      (id : ChunkId) (b : List ℕ) (modifiers : List Converter) (c : Chunk)
      → new_chunk_from_storage compress decompress sum id b modifiers false ≡ ok c
      → ((x : List ℕ) × ((data_of compress decompress c).0 ≡ ok x) × (sum x ≡ id)) ⊎ (id ≡ zero_id)
  unfolding new_chunk_from_storage id_of data_of
  new_chunk_from_storage_sound id [] modifiers c h = inr (ground (arith, id_equal→eq zero_id id))
  new_chunk_from_storage_sound id (y ∷ ys) modifiers c h =
      from_storage_cases modifiers id y ys c h _ refl

abbrev pub Inverts : Convert → Convert → Type 0
Inverts compress decompress = (b c : List ℕ) → compress b ≡ some c → decompress c ≡ some b

module _ (compress decompress : Convert) (inverts : Inverts compress decompress) where
  -- Where decompression undoes compression, what the layers turned into storage format they turn
  -- back.
  from_storage-to_storage :
      (ms : List Converter) (b c : List ℕ)
      → to_storage compress decompress ms b ≡ some c
      → from_storage compress decompress ms c ≡ some b
  unfolding to_storage from_storage layer_to_storage layer_from_storage
  from_storage-to_storage [] b c h = ground arith
  from_storage-to_storage (compressor ∷ ms) b c h = elim (Option-cases (compress b)) [
    | inl e ↦ ground arith
    | inr (x, e) ↦ ground (arith, from_storage-to_storage ms x c, inverts b x e)
  ]

converters_equal→eq : (ms cs : List Converter) → converters_equal ms cs ≡ true → ms ≡ cs
unfolding converters_equal
converters_equal→eq [] [] h = refl
converters_equal→eq [] (c ∷ cs) h = cc
converters_equal→eq (m ∷ ms) [] h = cc
converters_equal→eq (compressor ∷ ms) (compressor ∷ cs) h =
    ap (λ l. compressor ∷ l) (converters_equal→eq ms cs h)

-- A chunk as the stores give it for an id: its storage format, if it has one, is that of its data,
-- and if its id is calculated it is this one.
pub record IsChunkOf (compress decompress : Convert) (id : ChunkId) (b : List ℕ) (c : Chunk)
    : Type 0 where
  pub gives : (data_of compress decompress c).0 ≡ ok b
  pub agrees :
      (length c.stored == 0) ≡ false
      → from_storage compress decompress c.converters c.stored ≡ some b
  pub named : c.id_calculated ≡ true → c.id ≡ id

module _ (compress decompress : Convert) (sum : List ℕ → ChunkId) where
  -- A chunk of plain data is one, for any id.
  pub new_chunk-IsChunkOf :
      (id : ChunkId) (x : ℕ) (b : List ℕ)
      → IsChunkOf compress decompress id (x ∷ b) (new_chunk (x ∷ b))
  unfolding new_chunk data_of
  new_chunk-IsChunkOf id x b = record { gives = ground arith; agrees = λ h. cc; named = λ h. cc }

  -- So is a chunk built from storage format that gives data with the digest `id`, verified or not.
  pub new_chunk_from_storage-IsChunkOf :
      (id : ChunkId) (x y : ℕ) (b s : List ℕ) (ms : List Converter) (skip_verify : Bool) (c : Chunk)
      → from_storage compress decompress ms (y ∷ s) ≡ some (x ∷ b)
      → id ≡ sum (x ∷ b)
      → new_chunk_from_storage compress decompress sum id (y ∷ s) ms skip_verify ≡ ok c
      → IsChunkOf compress decompress id (x ∷ b) c
  unfolding new_chunk_from_storage id_of data_of
  new_chunk_from_storage-IsChunkOf id x y b s ms true c back e h = record {
    gives = ground arith;
    agrees = λ p. ground arith;
    named = λ p. ground arith;
  }
  new_chunk_from_storage-IsChunkOf id x y b s ms false c back e h =
      let same : id_equal (sum (x ∷ b)) id ≡ true = rw e (id_equal_refl (sum (x ∷ b))) in
      record { gives = ground arith; agrees = λ p. ground arith; named = λ p. ground arith }

module _ (compress decompress : Convert) (sum : List ℕ → ChunkId)
    (inverts : Inverts compress decompress) where
  -- What the layers of `ms` turn the data of a chunk into they turn back, also where the chunk had it
  -- already.
  pub storage_of-back :
      (ms : List Converter) (id : ChunkId) (x y : ℕ) (b s : List ℕ) (c : Chunk)
      → IsChunkOf compress decompress id (x ∷ b) c
      → (storage_of compress decompress ms c).0 ≡ ok (y ∷ s)
      → from_storage compress decompress ms (y ∷ s) ≡ some (x ∷ b)
  unfolding storage_of
  storage_of-back ms id x y b s c g h =
      let from_data = from_storage-to_storage compress decompress inverts ms (x ∷ b) (y ∷ s) in
      elim (Bool-cases (length c.stored == 0)) [
        | inl empty ↦ ground (arith, g.gives, from_data)
        | inr full ↦ elim (Bool-cases (converters_equal ms c.converters)) [
          | inl same ↦
              let e = converters_equal→eq ms c.converters same in
              let back = g.agrees full in ground arith
          | inr differ ↦ ground (arith, g.gives, from_data)
        ]
      ]

  -- The id of such a chunk, behind the call for its storage format.
  pub id_of-storage_of :
      (ms : List Converter) (id : ChunkId) (x : ℕ) (b : List ℕ) (c : Chunk)
      → IsChunkOf compress decompress id (x ∷ b) c
      → id ≡ sum (x ∷ b)
      → (id_of compress decompress sum (storage_of compress decompress ms c).1).0 ≡ id
  unfolding id_of storage_of data_of
  id_of-storage_of ms id x b c g e = ground (arith, g.gives, g.named)

  -- Its storage format is accepted under the id, and the chunk built from it gives the data.
  pub new_chunk_from_storage-storage_of :
      (ms : List Converter) (id : ChunkId) (x y : ℕ) (b s : List ℕ) (c : Chunk)
      → IsChunkOf compress decompress id (x ∷ b) c
      → (storage_of compress decompress ms c).0 ≡ ok (y ∷ s)
      → id ≡ sum (x ∷ b)
      → (c' : Chunk) × (new_chunk_from_storage compress decompress sum id (y ∷ s) ms false ≡ ok c')
        × ((data_of compress decompress c').0 ≡ ok (x ∷ b))
  unfolding data_of new_chunk_from_storage id_of
  new_chunk_from_storage-storage_of ms id x y b s c g h e =
      let back = storage_of-back ms id x y b s c g h in
      (
        record {
          plain = x ∷ b;
          stored = y ∷ s;
          converters = ms;
          id = sum (x ∷ b);
          id_calculated = true;
        },
        ground (arith, id_equal_refl id),
        ground arith,
      )

  -- Where decompression undoes compression, the storage format of a chunk with data, if it is not
  -- empty, is refused under any id other than that of the data, with an error that names both
  -- ids.
  new_chunk_from_storage_refused :
      (ms : List Converter) (x y : ℕ) (b s : List ℕ) (id : ChunkId)
      → (storage_of compress decompress ms (new_chunk (x ∷ b))).0 ≡ ok (y ∷ s)
      → id ≢ sum (x ∷ b)
      → new_chunk_from_storage compress decompress sum id (y ∷ s) ms false
        ≡ err (chunk_invalid id (sum (x ∷ b)))
  unfolding storage_of data_of new_chunk new_chunk_from_storage id_of
  new_chunk_from_storage_refused ms x y b s id h ne =
      let back : from_storage compress decompress ms (y ∷ s) ≡ some (x ∷ b) =
        from_storage-to_storage compress decompress inverts ms (x ∷ b) (y ∷ s) (ground arith) in
      ground (arith, id_equal→eq (sum (x ∷ b)) id)
