-- ===== src/Index/Defs.antt =====
-- `Index` and `IndexChunk` of index.go, `IndexFromReader`, `WriteTo` and `Length`.
--
-- Offsets are uint64, so sums and differences wrap. The digest algorithm is the one that digest.go
-- has been set to.
use desync.Common.{
  ℕ, ◌+◌, ◌-◌, ◌%◌, ◌^◌, List, [], ◌∷◌, ◌++◌, ltb, ◌==◌, not, if◌then◌else◌, bit_and, Option, some,
}
use desync.Common.Outcome.{Outcome, ok, err, panic, out_of_fuel, ◌>>=◌}
use desync.Format.Constants
use desync.Format.Decoder.{FormatDecoder, new_format_decoder, next}
use desync.Format.Elements.{FormatElement, FormatIndex, FormatTable, FormatTableItem, index, table}
use desync.Format.Encoder.{encode}
use desync.Stream.Defs.{Error, ChunkId}

pub record IndexChunk : Type 0 where
  pub id : ChunkId
  pub start : ℕ
  pub size : ℕ

pub record Index : Type 0 where
  pub index : FormatIndex
  pub chunks : List IndexChunk

-- The two algorithms of digest.go.
pub data Algorithm : Type 0 where
  sha512_256 sha256 : Algorithm

pub data IndexError : Type 0 where
  reading : Error → IndexError
  not_an_index uses_sha256 uses_sha512_256 table_not_found chunk_too_large : IndexError

-- `d.Next()` with its error wrapped.
unfoldable pub next_element :
    FormatDecoder → Outcome IndexError (Option FormatElement × FormatDecoder)
next_element d = elim (next d) [
  | ok r ↦ ok r
  | err e ↦ err (reading e)
  | panic ↦ panic
  | out_of_fuel ↦ out_of_fuel
]

unfoldable pub as_index : Option FormatElement → Outcome IndexError FormatIndex
as_index (some (index t)) = ok t
as_index _ = err not_an_index

unfoldable pub as_table : Option FormatElement → Outcome IndexError FormatTable
as_table (some (table t)) = ok t
as_table _ = err table_not_found

-- The feature flag must name the algorithm in use.
unfoldable pub check_digest : Algorithm → ℕ → Outcome IndexError (Unit {0})
check_digest sha512_256 flags =
    if bit_and flags Constants.ca_format_sha512256 == 0 then err uses_sha256 else ok tt
check_digest sha256 flags =
    if not (bit_and flags Constants.ca_format_sha512256 == 0) then err uses_sha512_256 else ok tt

-- The loop over the table, from the offset at which the last chunk ended.
unfoldable pub chunks_from_items :
    ℕ → ℕ → List FormatTableItem → Outcome IndexError (List IndexChunk)
chunks_from_items max last [] = ok []
chunks_from_items max last (r ∷ items) =
    let size : ℕ = (r.offset + 2 ^ 64 - last) % 2 ^ 64 in
    if ltb max size then err chunk_too_large else do
      rest ← chunks_from_items max r.offset items
      ok (record { id = r.chunk; start = last; size = size } ∷ rest)

unfoldable pub index_from_reader : Algorithm → List ℕ → Outcome IndexError Index
unfolding as_index as_table
index_from_reader algorithm s = do
  (e, d) ← next_element (new_format_decoder s)
  i ← as_index e
  checked ← check_digest algorithm i.feature_flags
  (e', d') ← next_element d
  t ← as_table e'
  chunks ← chunks_from_items i.chunk_size_max 0 t.items
  ok (record { index = i; chunks = chunks })

-- The table's items, from the offset at which the last chunk ended.
unfoldable pub items_from_chunks : ℕ → List IndexChunk → List FormatTableItem
items_from_chunks offset [] = []
items_from_chunks offset (c ∷ chunks) =
    let offset' : ℕ = (offset + c.size) % 2 ^ 64 in
    record { offset = offset'; chunk = c.id } ∷ items_from_chunks offset' chunks

unfoldable pub index_element : Index → FormatIndex
index_element i = record {
  header = record { size = 48; type = Constants.ca_format_index };
  feature_flags = i.index.feature_flags;
  chunk_size_min = i.index.chunk_size_min;
  chunk_size_avg = i.index.chunk_size_avg;
  chunk_size_max = i.index.chunk_size_max;
}

unfoldable pub table_element : Index → FormatTable
table_element i = record {
  header = record { size = 0xffff_ffff_ffff_ffff; type = Constants.ca_format_table };
  items = items_from_chunks 0 i.chunks;
}

unfoldable pub write_to : Index → List ℕ
write_to i = encode (index (index_element i)) ++ encode (table (table_element i))

unfoldable pub last_end : List IndexChunk → ℕ
last_end [] = 0
last_end (c ∷ []) = (c.start + c.size) % 2 ^ 64
last_end (c ∷ d ∷ chunks) = last_end (d ∷ chunks)

-- The bits of the int64 that `Length` returns.
unfoldable pub index_length : Index → ℕ
unfolding last_end
index_length i = last_end i.chunks
