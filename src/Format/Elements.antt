-- ===== src/Format/Elements.antt =====
-- The element types of format.go.
--
-- A string is the list of its bytes. The fields `uid` and `gid` (Go's `int`) and `mtime` (the
-- nanoseconds of a `time.Time`) hold the 64-bit patterns that are written, since int(x) and
-- uint64(x), and time.Unix(0, n) and UnixNano, convert between the two without loss. The content of
-- a payload is the list of the bytes that its reader gives.
use desync.Common.{ℕ, List}
use desync.Stream.Defs.{ChunkId, FormatHeader}

pub record FormatEntry : Type 0 where
  pub header : FormatHeader
  pub feature_flags : ℕ
  pub mode : ℕ
  pub flags : ℕ
  pub uid : ℕ
  pub gid : ℕ
  pub mtime : ℕ

pub record FormatUser : Type 0 where
  pub header : FormatHeader
  pub name : List ℕ

pub record FormatGroup : Type 0 where
  pub header : FormatHeader
  pub name : List ℕ

pub record FormatXattr : Type 0 where
  pub header : FormatHeader
  pub name_and_value : List ℕ

pub record FormatSelinux : Type 0 where
  pub header : FormatHeader
  pub label : List ℕ

pub record FormatFilename : Type 0 where
  pub header : FormatHeader
  pub name : List ℕ

pub record FormatSymlink : Type 0 where
  pub header : FormatHeader
  pub target : List ℕ

pub record FormatDevice : Type 0 where
  pub header : FormatHeader
  pub major : ℕ
  pub minor : ℕ

pub record FormatPayload : Type 0 where
  pub header : FormatHeader
  pub content : List ℕ

pub record FormatGoodbyeItem : Type 0 where
  pub offset : ℕ
  pub size : ℕ
  pub hash : ℕ

pub record FormatGoodbye : Type 0 where
  pub header : FormatHeader
  pub items : List FormatGoodbyeItem

pub record FormatFcaps : Type 0 where
  pub header : FormatHeader
  pub content : List ℕ

pub record FormatAclUser : Type 0 where
  pub header : FormatHeader
  pub uid : ℕ
  pub permissions : ℕ
  pub name : List ℕ

pub record FormatAclGroup : Type 0 where
  pub header : FormatHeader
  pub gid : ℕ
  pub permissions : ℕ
  pub name : List ℕ

pub record FormatAclGroupObj : Type 0 where
  pub header : FormatHeader
  pub permissions : ℕ

pub record FormatAclDefault : Type 0 where
  pub header : FormatHeader
  pub user_obj_permissions : ℕ
  pub group_obj_permissions : ℕ
  pub other_permissions : ℕ
  pub mask_permissions : ℕ

pub record FormatIndex : Type 0 where
  pub header : FormatHeader
  pub feature_flags : ℕ
  pub chunk_size_min : ℕ
  pub chunk_size_avg : ℕ
  pub chunk_size_max : ℕ

pub record FormatTableItem : Type 0 where
  pub offset : ℕ
  pub chunk : ChunkId

pub record FormatTable : Type 0 where
  pub header : FormatHeader
  pub items : List FormatTableItem

-- What `Next` returns and `Encode` takes as an `any`.
pub data FormatElement : Type 0 where
  entry : FormatEntry → FormatElement
  user : FormatUser → FormatElement
  group : FormatGroup → FormatElement
  xattr : FormatXattr → FormatElement
  selinux : FormatSelinux → FormatElement
  filename : FormatFilename → FormatElement
  symlink : FormatSymlink → FormatElement
  device : FormatDevice → FormatElement
  payload : FormatPayload → FormatElement
  fcaps : FormatFcaps → FormatElement
  acl_user : FormatAclUser → FormatElement
  acl_group : FormatAclGroup → FormatElement
  acl_group_obj : FormatAclGroupObj → FormatElement
  acl_default : FormatAclDefault → FormatElement
  goodbye : FormatGoodbye → FormatElement
  index : FormatIndex → FormatElement
  table : FormatTable → FormatElement
