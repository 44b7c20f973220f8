-- ===== src/Format/Encoder.antt =====
-- `FormatEncoder` of format.go. `encode` gives the bytes that are written; their number is what
-- `Encode` returns.
use desync.Common.{ℕ, ◌+◌, List, [], ◌∷◌, ◌++◌, length}
use desync.Format.Constants
use desync.Format.Elements.{
  FormatElement, FormatGoodbyeItem, FormatTableItem, entry, user, group, xattr, selinux, filename,
  symlink, device, payload, fcaps, acl_user, acl_group, acl_group_obj, acl_default, goodbye, index,
  table,
}
use desync.Format.Mode.{filemode_to_stat_mode}
use desync.Stream.Defs.{FormatHeader, write_uint64, write_id}

-- A header and a string with its zero byte.
unfoldable pub write_text : FormatHeader → List ℕ → List ℕ
write_text h name = write_uint64 (h.size ∷ h.type ∷ []) ++ (name ++ (0 ∷ []))

unfoldable pub write_goodbye_items : List FormatGoodbyeItem → List ℕ
write_goodbye_items [] = []
write_goodbye_items (item ∷ items) =
    write_uint64 (item.offset ∷ item.size ∷ item.hash ∷ []) ++ write_goodbye_items items

unfoldable pub write_table_items : List FormatTableItem → List ℕ
write_table_items [] = []
write_table_items (item ∷ items) =
    write_uint64 (item.offset ∷ []) ++ (write_id item.chunk ++ write_table_items items)

-- `n` bytes were written before.
unfoldable pub write_table_tail : ℕ → List ℕ
write_table_tail n =
    write_uint64 (0 ∷ 0 ∷ 48 ∷ (n + 40) ∷ Constants.ca_format_table_tail_marker ∷ [])

unfoldable pub encode : FormatElement → List ℕ
encode (entry t) = write_uint64 (
    t.header.size
    ∷ t.header.type
    ∷ t.feature_flags
    ∷ filemode_to_stat_mode t.mode
    ∷ t.flags
    ∷ t.uid
    ∷ t.gid
    ∷ t.mtime
    ∷ [])
encode (user t) = write_text t.header t.name
encode (group t) = write_text t.header t.name
encode (xattr t) = write_text t.header t.name_and_value
encode (selinux t) = write_text t.header t.label
encode (filename t) = write_text t.header t.name
encode (symlink t) = write_text t.header t.target
encode (device t) = write_uint64 (t.header.size ∷ t.header.type ∷ t.major ∷ t.minor ∷ [])
encode (payload t) = write_uint64 (t.header.size ∷ t.header.type ∷ []) ++ t.content
encode (fcaps t) = write_uint64 (t.header.size ∷ t.header.type ∷ []) ++ t.content
encode (acl_user t) =
    write_uint64 (t.header.size ∷ t.header.type ∷ t.uid ∷ t.permissions ∷ [])
    ++ (t.name ++ (0 ∷ []))
encode (acl_group t) =
    write_uint64 (t.header.size ∷ t.header.type ∷ t.gid ∷ t.permissions ∷ [])
    ++ (t.name ++ (0 ∷ []))
encode (acl_group_obj t) = write_uint64 (t.header.size ∷ t.header.type ∷ t.permissions ∷ [])
encode (acl_default t) = write_uint64 (
    t.header.size ∷ t.header.type ∷ t.user_obj_permissions ∷ t.group_obj_permissions
    ∷ t.other_permissions ∷ t.mask_permissions ∷ [])
encode (goodbye t) =
    write_uint64 (t.header.size ∷ t.header.type ∷ []) ++ write_goodbye_items t.items
encode (index t) = write_uint64 (
    t.header.size ∷ t.header.type ∷ t.feature_flags ∷ t.chunk_size_min ∷ t.chunk_size_avg
    ∷ t.chunk_size_max ∷ [])
encode (table t) =
    let items : List ℕ =
      write_uint64 (t.header.size ∷ t.header.type ∷ []) ++ write_table_items t.items in
    items ++ write_table_tail (length items)

unfoldable pub encode_all : List FormatElement → List ℕ
encode_all [] = []
encode_all (e ∷ es) = encode e ++ encode_all es
