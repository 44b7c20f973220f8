-- ===== src/Format/Bodies.antt =====
-- The cases of `FormatDecoder.Next` of format.go. Each reads a body; the header has been read.
use desync.Common.{
  ℕ, zero, suc, ◌+◌, ◌-◌, ◌*◌, ◌/◌, ◌%◌, ◌^◌, List, [], ◌∷◌, length, take, ltb, ◌==◌, not,
  if◌then◌else◌, Bool,
}
use desync.Common.Outcome.{ok, panic}
use desync.Format.Constants
use desync.Format.Elements.{
  FormatElement, FormatGoodbyeItem, entry, user, group, xattr, selinux, filename, symlink, device,
  payload, fcaps, acl_user, acl_group, acl_group_obj, acl_default, goodbye, index,
}
use desync.Format.Mode.{stat_mode_to_filemode}
use desync.Stream.Defs.{
  invalid_format, Reader, ◌>>=◌, pure, fail, crash, FormatHeader, max_alloc, read_n, read_uint64,
}

-- `hdr.Size - k` in a uint64, which wraps.
abbrev pub body_size : FormatHeader → ℕ → ℕ
body_size hdr k = (hdr.size + 2 ^ 64 - k) % 2 ^ 64

-- `b[:len(b)-1]`, which panics on an empty slice.
unfoldable pub strip_zero : List ℕ → Reader (List ℕ)
strip_zero [] s = panic
strip_zero (b ∷ bs) s = ok (take (length bs) (b ∷ bs), s)

-- A buffer of `n` bytes, read in full, without its last byte.
unfoldable pub read_text : ℕ → Reader (List ℕ)
unfolding strip_zero
read_text n = do b ← read_n n; strip_zero b

unfoldable pub read_entry : FormatHeader → Reader FormatElement
read_entry hdr = if not (hdr.size == 64) then fail invalid_format else do
  feature_flags ← read_uint64
  mode ← read_uint64
  flags ← read_uint64
  uid ← read_uint64
  gid ← read_uint64
  mtime ← read_uint64
  pure (
      entry (record {
        header = hdr;
        feature_flags = feature_flags;
        mode = stat_mode_to_filemode (mode % 2 ^ 32);
        flags = flags;
        uid = uid;
        gid = gid;
        mtime = mtime;
      }))

unfoldable pub read_user : FormatHeader → Reader FormatElement
read_user hdr = do
  name ← read_text (body_size hdr 16)
  pure (user (record { header = hdr; name = name }))

unfoldable pub read_group : FormatHeader → Reader FormatElement
read_group hdr = do
  name ← read_text (body_size hdr 16)
  pure (group (record { header = hdr; name = name }))

unfoldable pub read_xattr : FormatHeader → Reader FormatElement
read_xattr hdr = do
  name_and_value ← read_text (body_size hdr 16)
  pure (xattr (record { header = hdr; name_and_value = name_and_value }))

unfoldable pub read_selinux : FormatHeader → Reader FormatElement
read_selinux hdr = do
  label ← read_text (body_size hdr 16)
  pure (selinux (record { header = hdr; label = label }))

unfoldable pub read_filename : FormatHeader → Reader FormatElement
read_filename hdr = do
  name ← read_text (body_size hdr 16)
  pure (filename (record { header = hdr; name = name }))

unfoldable pub read_symlink : FormatHeader → Reader FormatElement
read_symlink hdr = do
  target ← read_text (body_size hdr 16)
  pure (symlink (record { header = hdr; target = target }))

unfoldable pub read_device : FormatHeader → Reader FormatElement
read_device hdr = if not (hdr.size == 32) then fail invalid_format else do
  major ← read_uint64
  minor ← read_uint64
  pure (device (record { header = hdr; major = major; minor = minor }))

-- `int64(size)` of the limit: a negative one lets nothing through.
unfoldable pub payload_limit : FormatHeader → ℕ
payload_limit hdr = let n : ℕ = body_size hdr 16 in if ltb n (2 ^ 63) then n else 0

-- The payload is not read here: its reader shares the stream.
unfoldable pub read_payload : FormatHeader → Reader FormatElement
read_payload hdr s = ok (payload (record { header = hdr; content = take (payload_limit hdr) s }), s)

unfoldable pub read_fcaps : FormatHeader → Reader FormatElement
read_fcaps hdr = do
  b ← read_n (body_size hdr 16)
  pure (fcaps (record { header = hdr; content = b }))

unfoldable pub read_acl_user : FormatHeader → Reader FormatElement
read_acl_user hdr = do
  uid ← read_uint64
  permissions ← read_uint64
  name ← read_text (body_size hdr 32)
  pure (acl_user (record { header = hdr; uid = uid; permissions = permissions; name = name }))

unfoldable pub read_acl_group : FormatHeader → Reader FormatElement
read_acl_group hdr = do
  gid ← read_uint64
  permissions ← read_uint64
  name ← read_text (body_size hdr 32)
  pure (acl_group (record { header = hdr; gid = gid; permissions = permissions; name = name }))

unfoldable pub read_acl_group_obj : FormatHeader → Reader FormatElement
read_acl_group_obj hdr = do
  permissions ← read_uint64
  pure (acl_group_obj (record { header = hdr; permissions = permissions }))

unfoldable pub read_acl_default : FormatHeader → Reader FormatElement
read_acl_default hdr = do
  user_obj ← read_uint64
  group_obj ← read_uint64
  other ← read_uint64
  mask ← read_uint64
  pure (
      acl_default (record {
        header = hdr;
        user_obj_permissions = user_obj;
        group_obj_permissions = group_obj;
        other_permissions = other;
        mask_permissions = mask;
      }))

unfoldable pub read_goodbye_items : ℕ → Reader (List FormatGoodbyeItem)
read_goodbye_items zero = pure []
read_goodbye_items (suc n) = do
  offset ← read_uint64
  size ← read_uint64
  hash ← read_uint64
  items ← read_goodbye_items n
  pure (record { offset = offset; size = size; hash = hash } ∷ items)

-- Whether the last item holds the tail marker; there may be no item.
unfoldable pub has_tail_marker : List FormatGoodbyeItem → Bool
has_tail_marker [] = Bool.false
has_tail_marker (x ∷ []) = x.hash == Constants.ca_format_goodbye_tail_marker
has_tail_marker (x ∷ y ∷ items) = has_tail_marker (y ∷ items)

-- An item takes 24 bytes of the slice that is made for all of them.
unfoldable pub read_goodbye : FormatHeader → Reader FormatElement
read_goodbye hdr =
    let n : ℕ = body_size hdr 16 / 24 in
    if ltb max_alloc (24 * n) then crash else do
      items ← read_goodbye_items n
      if has_tail_marker items
          then pure (goodbye (record { header = hdr; items = items }))
          else fail invalid_format

unfoldable pub read_index : FormatHeader → Reader FormatElement
read_index hdr = do
  feature_flags ← read_uint64
  size_min ← read_uint64
  size_avg ← read_uint64
  size_max ← read_uint64
  pure (
      index (record {
        header = hdr;
        feature_flags = feature_flags;
        chunk_size_min = size_min;
        chunk_size_avg = size_avg;
        chunk_size_max = size_max;
      }))
