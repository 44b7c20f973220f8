-- ===== src/Format/WellFormed.antt =====
-- The elements that an archive or an index file holds: the type and the size of the header fit the
-- content, and every number fits 64 bits.
use desync.Common.{ℕ, ◌+◌, ◌*◌, ◌^◌, ◌≤◌, ◌<◌, ◌≡◌, ◌≢◌, true, List, length, All}
use desync.Format.Bodies.{has_tail_marker}
use desync.Format.Constants
use desync.Format.Elements.{
  FormatElement, FormatGoodbyeItem, FormatTableItem, entry, user, group, xattr, selinux, filename,
  symlink, device, payload, fcaps, acl_user, acl_group, acl_group_obj, acl_default, goodbye, index,
  table,
}
use desync.Format.Mode.{stat_mode_to_filemode}
use desync.Format.Mode.RoundTrip.{IsStatMode}
use desync.Stream.Defs.{FormatHeader, IsU64, max_alloc}

abbrev pub HasHeader : FormatHeader → ℕ → ℕ → Type 0
HasHeader h size type = (h.size ≡ size) × (h.type ≡ type)

-- A string with its zero byte behind `k` bytes.
abbrev pub HasText : FormatHeader → ℕ → ℕ → List ℕ → Type 0
HasText h type k s = HasHeader h (length s + 1 + k) type × (length s < max_alloc)

-- Go's form of a Unix mode.
abbrev pub IsFileMode : ℕ → Type 0
IsFileMode m = (s : ℕ) × IsStatMode s × (m ≡ stat_mode_to_filemode s)

abbrev pub IsGoodbyeItem : FormatGoodbyeItem → Type 0
IsGoodbyeItem item = IsU64 item.offset × IsU64 item.size × IsU64 item.hash

abbrev pub IsTableItem : FormatTableItem → Type 0
IsTableItem item = (item.offset ≢ 0) × IsU64 item.offset × (length item.chunk ≡ 32)

abbrev pub IsWellFormed : FormatElement → Type 0
IsWellFormed (entry t) =
    HasHeader t.header 64 Constants.ca_format_entry
    × IsU64 t.feature_flags
    × IsFileMode t.mode
    × IsU64 t.flags
    × IsU64 t.uid
    × IsU64 t.gid
    × IsU64 t.mtime
IsWellFormed (user t) = HasText t.header Constants.ca_format_user 16 t.name
IsWellFormed (group t) = HasText t.header Constants.ca_format_group 16 t.name
IsWellFormed (xattr t) = HasText t.header Constants.ca_format_xattr 16 t.name_and_value
IsWellFormed (selinux t) = HasText t.header Constants.ca_format_selinux 16 t.label
IsWellFormed (filename t) = HasText t.header Constants.ca_format_filename 16 t.name
IsWellFormed (symlink t) = HasText t.header Constants.ca_format_symlink 16 t.target
IsWellFormed (device t) =
    HasHeader t.header 32 Constants.ca_format_device × IsU64 t.major × IsU64 t.minor
IsWellFormed (payload t) =
    HasHeader t.header (length t.content + 16) Constants.ca_format_payload
    × (length t.content < 2 ^ 63)
IsWellFormed (fcaps t) =
    HasHeader t.header (length t.content + 16) Constants.ca_format_fcaps
    × (length t.content ≤ max_alloc)
IsWellFormed (acl_user t) =
    HasText t.header Constants.ca_format_acl_user 32 t.name × IsU64 t.uid × IsU64 t.permissions
IsWellFormed (acl_group t) =
    HasText t.header Constants.ca_format_acl_group 32 t.name × IsU64 t.gid × IsU64 t.permissions
IsWellFormed (acl_group_obj t) =
    IsU64 t.header.size × (t.header.type ≡ Constants.ca_format_acl_group_obj) × IsU64 t.permissions
IsWellFormed (acl_default t) =
    IsU64 t.header.size
    × (t.header.type ≡ Constants.ca_format_acl_default)
    × IsU64 t.user_obj_permissions
    × IsU64 t.group_obj_permissions
    × IsU64 t.other_permissions
    × IsU64 t.mask_permissions
IsWellFormed (goodbye t) =
    HasHeader t.header (24 * length t.items + 16) Constants.ca_format_goodbye
    × (24 * length t.items ≤ max_alloc)
    × All IsGoodbyeItem t.items
    × (has_tail_marker t.items ≡ true)
IsWellFormed (index t) =
    IsU64 t.header.size
    × (t.header.type ≡ Constants.ca_format_index)
    × IsU64 t.feature_flags
    × IsU64 t.chunk_size_min
    × IsU64 t.chunk_size_avg
    × IsU64 t.chunk_size_max
IsWellFormed (table t) =
    HasHeader t.header 0xffff_ffff_ffff_ffff Constants.ca_format_table × All IsTableItem t.items
