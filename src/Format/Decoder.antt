-- ===== src/Format/Decoder.antt =====
-- `FormatDecoder` of format.go: the chunk table, the choice by the header, and `Next`.
pub mod End
use desync.Common.{
  ℕ, zero, suc, List, [], ◌∷◌, length, drop, ◌==◌, not, if◌then◌else◌, Option, none, some,
}
use desync.Common.Outcome.{Outcome, ok, err, panic, out_of_fuel}
use desync.Format.Constants
use desync.Format.Elements.{FormatElement, FormatTableItem, payload, table}
use desync.Format.Bodies.{
  read_entry, read_user, read_group, read_xattr, read_selinux, read_filename, read_symlink,
  read_device, payload_limit, read_payload, read_fcaps, read_acl_user, read_acl_group,
  read_acl_group_obj, read_acl_default, read_goodbye, read_index,
}
use desync.Stream.Defs.{
  Error, eof, invalid_format, unsupported_header, Reader, ◌>>=◌, ◌>>◌, pure, fail, exhausted,
  FormatHeader, read_uint64, read_id, read_header,
}

-- A round takes 40 bytes, or 8 if it is the last.
unfoldable pub read_table_items : ℕ → Reader (List FormatTableItem)
read_table_items zero = exhausted
read_table_items (suc fuel) = do
  offset ← read_uint64
  if offset == 0 then pure [] else do
    chunk ← read_id
    items ← read_table_items fuel
    pure (record { offset = offset; chunk = chunk } ∷ items)

-- The fuel is more than the bytes that are left.
unfoldable pub read_all_table_items : Reader (List FormatTableItem)
read_all_table_items s = read_table_items (suc (length s)) s

-- Zero fill, index offset, size and marker, of which the first and the last are checked.
unfoldable pub read_table_tail : Reader (Unit {0})
read_table_tail = do
  fill ← read_uint64
  if not (fill == 0) then fail invalid_format else do
    read_uint64
    read_uint64
    marker ← read_uint64
    if marker == Constants.ca_format_table_tail_marker then pure tt else fail invalid_format

unfoldable pub read_table : FormatHeader → Reader FormatElement
read_table hdr = if not (hdr.size == 0xffff_ffff_ffff_ffff) then fail invalid_format else do
  items ← read_all_table_items
  read_table_tail
  pure (table (record { header = hdr; items = items }))

-- The switch on the header's type.
unfoldable pub read_kind : ℕ → FormatHeader → Reader FormatElement
read_kind type hdr =
    if type == Constants.ca_format_entry
    then read_entry hdr
    else if type == Constants.ca_format_user
    then read_user hdr
    else if type == Constants.ca_format_group
    then read_group hdr
    else if type == Constants.ca_format_xattr
    then read_xattr hdr
    else if type == Constants.ca_format_selinux
    then read_selinux hdr
    else if type == Constants.ca_format_filename
    then read_filename hdr
    else if type == Constants.ca_format_symlink
    then read_symlink hdr
    else if type == Constants.ca_format_device
    then read_device hdr
    else if type == Constants.ca_format_payload
    then read_payload hdr
    else if type == Constants.ca_format_fcaps
    then read_fcaps hdr
    else if type == Constants.ca_format_acl_user
    then read_acl_user hdr
    else if type == Constants.ca_format_acl_group
    then read_acl_group hdr
    else if type == Constants.ca_format_acl_group_obj
    then read_acl_group_obj hdr
    else if type == Constants.ca_format_acl_default
    then read_acl_default hdr
    else if type == Constants.ca_format_goodbye
    then read_goodbye hdr
    else if type == Constants.ca_format_index
    then read_index hdr
    else if type == Constants.ca_format_table
    then read_table hdr
    else fail (unsupported_header type)

unfoldable pub read_element : FormatHeader → Reader FormatElement
read_element hdr = read_kind hdr.type hdr

-- `rest` is what the stream still holds; `advance` is what the reader that was last returned may
-- still take from it.
pub record FormatDecoder : Type 0 where
  pub rest : List ℕ
  pub advance : Option ℕ

unfoldable pub new_format_decoder : List ℕ → FormatDecoder
new_format_decoder s = record { rest = s; advance = none }

-- `io.Copy(io.Discard, d.advance)`
unfoldable pub skip_advance : FormatDecoder → List ℕ
skip_advance d = elim d.advance [ none ↦ d.rest | some n ↦ drop n d.rest ]

-- The reader that `Next` keeps: only a payload has one.
unfoldable pub advance_of : FormatElement → Option ℕ
advance_of (payload p) = some (payload_limit p.header)
advance_of _ = none

abbrev pub NextResult : Type 0
NextResult = Outcome Error (Option FormatElement × FormatDecoder)

-- The end of the stream at the header is no error: the element is nil.
unfoldable pub header_error : Error → NextResult
header_error eof = ok (none, record { rest = []; advance = none })
header_error e = err e

unfoldable pub next_from : List ℕ → NextResult
unfolding header_error
next_from s = elim (read_header s) [
  | err e ↦ header_error e
  | panic ↦ panic
  | out_of_fuel ↦ out_of_fuel
  | ok (hdr, s') ↦ elim (read_element hdr s') [
    | err e ↦ err e
    | panic ↦ panic
    | out_of_fuel ↦ out_of_fuel
    | ok (e, s'') ↦ ok (some e, record { rest = s''; advance = advance_of e })
  ]
]

unfoldable pub next : FormatDecoder → NextResult
unfolding next_from
next d = next_from (skip_advance d)

-- Calls `Next` until it returns nil, as the loops over a decoder do; `out_of_fuel` after too many.
unfoldable pub next_all : ℕ → FormatDecoder → Outcome Error (List FormatElement)
next_all zero d = out_of_fuel
next_all (suc fuel) d = elim (next d) [
  | err e ↦ err e
  | panic ↦ panic
  | out_of_fuel ↦ out_of_fuel
  | ok (none, d') ↦ ok []
  | ok (some e, d') ↦ elim (next_all fuel d') [
    | err e' ↦ err e'
    | panic ↦ panic
    | out_of_fuel ↦ out_of_fuel
    | ok es ↦ ok (e ∷ es)
  ]
]
