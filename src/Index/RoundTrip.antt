-- ===== src/Index/RoundTrip.antt =====
-- About `IndexFromReader` behind `WriteTo`, and `Length`, of index.go.
use desync.Common.{
  ℕ, ◌+◌, ◌-◌, ◌%◌, ◌^◌, ◌≤◌, ◌<◌, ◌≡◌, refl, ◌∙◌, List, [], ◌∷◌, ◌++◌, length, All, ltb, false,
  arith, Option, append-nil,
}
use desync.Common.Outcome.{ok, err}
use desync.Format.Constants
use desync.Format.Decoder.{FormatDecoder, new_format_decoder, skip_advance, next}
use desync.Format.Elements.{FormatElement, index, table}
use desync.Format.Encoder.{encode}
use desync.Format.RoundTrip.Elements.{next-encode}
use desync.Format.WellFormed.{IsWellFormed, IsTableItem}
use desync.Index.Defs.{
  Index, IndexChunk, Algorithm, sha256, sha512_256, uses_sha512_256, next_element,
  chunks_from_items, items_from_chunks, index_element, table_element, check_digest,
  index_from_reader, write_to, index_length,
}
use desync.Index.Layout.{Tiles, Tiles-le, last_end_lem}
use desync.Stream.Defs.{IsU64}

-- A chunk with an id, that is not empty and not larger than the maximum.
abbrev pub IsChunk : ℕ → IndexChunk → Type 0
IsChunk max c = (length c.id ≡ 32) × (0 < c.size) × (c.size ≤ max)

-- An index of a blob of `total` bytes: its chunks tile the blob.
pub record IsIndexOf (algorithm : Algorithm) (i : Index) (total : ℕ) : Type 0 where
  pub size : i.index.header.size ≡ 48
  pub type : i.index.header.type ≡ Constants.ca_format_index
  pub feature_flags : IsU64 i.index.feature_flags
  pub chunk_size_min : IsU64 i.index.chunk_size_min
  pub chunk_size_avg : IsU64 i.index.chunk_size_avg
  pub chunk_size_max : IsU64 i.index.chunk_size_max
  pub digest : check_digest algorithm i.index.feature_flags ≡ ok tt
  pub tiles : Tiles 0 i.chunks total
  pub total_fits : IsU64 total
  pub chunks : All (IsChunk i.index.chunk_size_max) i.chunks

items_from_chunks-IsTableItem :
    (max start total : ℕ) (chunks : List IndexChunk)
    → Tiles start chunks total
    → IsU64 total
    → All (IsChunk max) chunks
    → All IsTableItem (items_from_chunks start chunks)
unfolding items_from_chunks
items_from_chunks-IsTableItem max start total [] t h hs = tt
items_from_chunks-IsTableItem max start total (c ∷ chunks) (e, t) h ((h1, h2, h3), hs) =
    let bound : start + c.size ≤ total = Tiles-le (start + c.size) chunks total t in
    let same : (start + c.size) % 2 ^ 64 ≡ start + c.size = omega arith in
    rw same (
      (omega arith, omega arith, h1),
      items_from_chunks-IsTableItem max (start + c.size) total chunks t h hs,
    )

chunks_from_items-items_from_chunks :
    (max start total : ℕ) (chunks : List IndexChunk)
    → Tiles start chunks total
    → IsU64 total
    → All (IsChunk max) chunks
    → chunks_from_items max start (items_from_chunks start chunks) ≡ ok chunks
unfolding chunks_from_items items_from_chunks
chunks_from_items-items_from_chunks max start total [] t h hs = refl
chunks_from_items-items_from_chunks max start total (c ∷ chunks) (e, t) h ((h1, h2, h3), hs) =
    let bound : start + c.size ≤ total = Tiles-le (start + c.size) chunks total t in
    let same : (start + c.size) % 2 ^ 64 ≡ start + c.size = omega arith in
    let size : (start + c.size + 2 ^ 64 - start) % 2 ^ 64 ≡ c.size = omega arith in
    let fits : ltb max c.size ≡ false = ground arith in
    rw (same, size, fits)
      (rw (chunks_from_items-items_from_chunks max (start + c.size) total chunks t h hs) (rw e))

next_element-next :
    (d : FormatDecoder) {r : Option FormatElement × FormatDecoder}
    → next d ≡ ok r
    → next_element d ≡ ok r
unfolding next_element
next_element-next d e = rw (next_element, e)

at_start :
    (i : Index)
    → skip_advance (new_format_decoder (write_to i))
      ≡ encode (index (index_element i)) ++ encode (table (table_element i))
unfolding skip_advance new_format_decoder write_to
at_start i = refl

module _ (algorithm : Algorithm) (i : Index) (total : ℕ) (h : IsIndexOf algorithm i total) where
  index_element-eq : index_element i ≡ i.index
  unfolding index_element
  index_element-eq = ground arith

  table_element-IsWellFormed : IsWellFormed (table (table_element i))
  unfolding table_element
  table_element-IsWellFormed =
      ((refl, refl), items_from_chunks-IsTableItem _ 0 total i.chunks h.tiles h.total_fits h.chunks)

  index_element-IsWellFormed : IsWellFormed (index (index_element i))
  unfolding index_element
  index_element-IsWellFormed =
      (omega arith, refl, h.feature_flags, h.chunk_size_min, h.chunk_size_avg, h.chunk_size_max)

  -- An index whose chunks tile a blob of less than 2 ^ 64 bytes, are not empty and not larger
  -- than its maximum, and whose flags name the digest in use, is read back from what `WriteTo`
  -- writes.
  pub index_from_reader-write_to : index_from_reader algorithm (write_to i) ≡ ok i
  unfolding index_from_reader
  index_from_reader-write_to =
      let (d, got, at) =
        next-encode (index (index_element i)) (new_format_decoder (write_to i)) _
          index_element-IsWellFormed (at_start i) in
      let (d', got', at') =
        next-encode (table (table_element i)) d [] table_element-IsWellFormed
          (at ∙ rw append-nil) in
      let chunks =
        chunks_from_items-items_from_chunks _ 0 total i.chunks h.tiles h.total_fits h.chunks in
      rw
        (
          index_from_reader,
          next_element-next _ got,
          index_element-eq,
          h.digest,
          next_element-next _ got',
        )
        (unfold table_element in rw chunks)

  -- For an index whose chunks tile a blob of less than 2 ^ 64 bytes, and that is otherwise as it
  -- is written and read, the length is the number of bytes of the blob.
  pub index_length_lem : index_length i ≡ total
  unfolding index_length
  index_length_lem = last_end_lem total i.chunks h.tiles h.total_fits

-- A reader that uses SHA256 refuses an index with the flag of SHA512/256.
pub index_from_reader_refused :
    (i : Index) (total : ℕ)
    → IsIndexOf sha512_256 i total
    → index_from_reader sha256 (write_to i) ≡ err uses_sha512_256
unfolding index_from_reader check_digest
index_from_reader_refused i total h =
    let (d, got, at) =
      next-encode (index (index_element i)) (new_format_decoder (write_to i)) _
        (index_element-IsWellFormed sha512_256 i total h) (at_start i) in
    let flag = h.digest in
    rw (index_from_reader, next_element-next _ got, index_element-eq sha512_256 i total h)
      (ground arith)
