-- ===== src/Format/RoundTrip/Bodies.antt =====
-- About the body of each element of format.go, written and read.
use desync.Common.{
  ℕ, suc, take, ◌+◌, ◌%◌, ◌^◌, ◌≤◌, ◌<◌, ◌≡◌, refl, ap, ◌∙◌, List, [], ◌∷◌, ◌++◌, length,
  length-append, take-length_append, arith,
}
use desync.Common.Outcome.{ok}
use desync.Format.Bodies.{
  strip_zero, read_text, read_entry, read_device, body_size, read_acl_user, read_acl_group,
  read_acl_group_obj, read_acl_default, read_index, read_fcaps, read_payload, payload_limit,
}
use desync.Format.Constants
use desync.Format.WellFormed.{HasText}
use desync.Format.Elements.{
  FormatEntry, FormatDevice, FormatAclUser, FormatAclGroup, FormatAclGroupObj, FormatAclDefault,
  FormatIndex, FormatFcaps, FormatPayload, entry, device, acl_user, acl_group, acl_group_obj,
  acl_default, index, fcaps, payload,
}
use desync.Format.Mode.{stat_mode_to_filemode}
use desync.Stream.Defs.{Reader, ◌>>=◌, FormatHeader, IsU64, max_alloc, write_uint64, read_n}
use desync.Stream.RoundTrip.{bind_step, read_n-append, read_uint64-bind, write_uint64-nil}

take-snoc : (x : ℕ) (xs : List ℕ) → take (length (xs ++ (0 ∷ []))) (x ∷ xs ++ (0 ∷ [])) ≡ x ∷ xs
take-snoc x xs =
    let e : length (xs ++ (0 ∷ [])) ≡ suc (length xs) = omega (arith, length-append xs (0 ∷ [])) in
    rw e (ap (λ l. x ∷ l) (take-length_append xs (0 ∷ [])))

strip_zero-append : (name s : List ℕ) → strip_zero (name ++ (0 ∷ [])) s ≡ ok (name, s)
unfolding strip_zero
strip_zero-append [] s = refl
strip_zero-append (x ∷ xs) s = ap (λ l. ok (l, s)) (take-snoc x xs)

-- A string whose zero byte is read with it, and taken off.
pub read_text-append :
    (n : ℕ) (name rest : List ℕ)
    → n ≡ length name + 1
    → length name < max_alloc
    → read_text n ((name ++ (0 ∷ [])) ++ rest) ≡ ok (name, rest)
unfolding read_text
read_text-append n name rest e h = ground (
  arith,
  length-append name (0 ∷ []),
  read_n-append (name ++ (0 ∷ [])) rest,
  strip_zero-append name rest,
)

pub read_device-encode :
    (t : FormatDevice) (rest : List ℕ)
    → t.header.size ≡ 32
    → IsU64 t.major
    → IsU64 t.minor
    → read_device t.header (write_uint64 (t.major ∷ t.minor ∷ []) ++ rest) ≡ ok (device t, rest)
unfolding read_device
read_device-encode t rest e h1 h2 = rw e (
    read_uint64-bind t.major _ rest _ h1
    ∙ read_uint64-bind t.minor [] rest _ h2
    ∙ rw write_uint64-nil)

pub read_entry-encode :
    (t : FormatEntry) (s : ℕ) (rest : List ℕ)
    → t.header.size ≡ 64
    → IsU64 t.feature_flags
    → s < 2 ^ 32
    → t.mode ≡ stat_mode_to_filemode s
    → IsU64 t.flags
    → IsU64 t.uid
    → IsU64 t.gid
    → IsU64 t.mtime
    → read_entry t.header
        (write_uint64 (t.feature_flags ∷ s ∷ t.flags ∷ t.uid ∷ t.gid ∷ t.mtime ∷ []) ++ rest)
      ≡ ok (entry t, rest)
unfolding read_entry
read_entry-encode t s rest e h1 h2 em h3 h4 h5 h6 =
    let m : s % 2 ^ 32 ≡ s = omega arith in
    rw e (
      read_uint64-bind t.feature_flags _ rest _ h1
      ∙ read_uint64-bind s _ rest _ (omega arith)
      ∙ read_uint64-bind t.flags _ rest _ h3
      ∙ read_uint64-bind t.uid _ rest _ h4
      ∙ read_uint64-bind t.gid _ rest _ h5
      ∙ read_uint64-bind t.mtime [] rest _ h6
      ∙ rw (write_uint64-nil, m, ← em))

-- The string behind `k` bytes of a body, as the header announces it.
pub read_text-bind :
    {A : Type 0} (h : FormatHeader) (k type : ℕ) (name rest : List ℕ) (cont : List ℕ → Reader A)
    → HasText h type k name
    → k < 64
    → (read_text (body_size h k) >>= cont) ((name ++ (0 ∷ [])) ++ rest) ≡ cont name rest
read_text-bind h k type name rest cont ((size, _), fits) small =
    bind_step (read_text (body_size h k)) cont (read_text-append _ name rest (omega arith) fits)

module _ (rest : List ℕ) where
  pub read_acl_user-encode :
      (t : FormatAclUser)
      → HasText t.header Constants.ca_format_acl_user 32 t.name
      → IsU64 t.uid
      → IsU64 t.permissions
      → read_acl_user t.header
          (write_uint64 (t.uid ∷ t.permissions ∷ []) ++ ((t.name ++ (0 ∷ [])) ++ rest))
        ≡ ok (acl_user t, rest)
  unfolding read_acl_user
  read_acl_user-encode t h h1 h2 =
      read_uint64-bind t.uid _ _ _ h1
      ∙ read_uint64-bind t.permissions [] _ _ h2
      ∙ rw write_uint64-nil (read_text-bind t.header 32 _ t.name rest _ h (omega arith))

  pub read_acl_group-encode :
      (t : FormatAclGroup)
      → HasText t.header Constants.ca_format_acl_group 32 t.name
      → IsU64 t.gid
      → IsU64 t.permissions
      → read_acl_group t.header
          (write_uint64 (t.gid ∷ t.permissions ∷ []) ++ ((t.name ++ (0 ∷ [])) ++ rest))
        ≡ ok (acl_group t, rest)
  unfolding read_acl_group
  read_acl_group-encode t h h1 h2 =
      read_uint64-bind t.gid _ _ _ h1
      ∙ read_uint64-bind t.permissions [] _ _ h2
      ∙ rw write_uint64-nil (read_text-bind t.header 32 _ t.name rest _ h (omega arith))

  pub read_acl_group_obj-encode :
      (t : FormatAclGroupObj)
      → IsU64 t.permissions
      → read_acl_group_obj t.header (write_uint64 (t.permissions ∷ []) ++ rest)
        ≡ ok (acl_group_obj t, rest)
  unfolding read_acl_group_obj
  read_acl_group_obj-encode t h = read_uint64-bind t.permissions [] rest _ h ∙ rw write_uint64-nil

  pub read_acl_default-encode :
      (t : FormatAclDefault)
      → IsU64 t.user_obj_permissions
      → IsU64 t.group_obj_permissions
      → IsU64 t.other_permissions
      → IsU64 t.mask_permissions
      → read_acl_default t.header (
          write_uint64 (
            t.user_obj_permissions ∷ t.group_obj_permissions ∷ t.other_permissions
            ∷ t.mask_permissions ∷ [])
          ++ rest)
        ≡ ok (acl_default t, rest)
  unfolding read_acl_default
  read_acl_default-encode t h1 h2 h3 h4 =
      read_uint64-bind t.user_obj_permissions _ rest _ h1
      ∙ read_uint64-bind t.group_obj_permissions _ rest _ h2
      ∙ read_uint64-bind t.other_permissions _ rest _ h3
      ∙ read_uint64-bind t.mask_permissions [] rest _ h4
      ∙ rw write_uint64-nil

  pub read_index-encode :
      (t : FormatIndex)
      → IsU64 t.feature_flags
      → IsU64 t.chunk_size_min
      → IsU64 t.chunk_size_avg
      → IsU64 t.chunk_size_max
      → read_index t.header (
          write_uint64
            (t.feature_flags ∷ t.chunk_size_min ∷ t.chunk_size_avg ∷ t.chunk_size_max ∷ [])
          ++ rest)
        ≡ ok (index t, rest)
  unfolding read_index
  read_index-encode t h1 h2 h3 h4 =
      read_uint64-bind t.feature_flags _ rest _ h1
      ∙ read_uint64-bind t.chunk_size_min _ rest _ h2
      ∙ read_uint64-bind t.chunk_size_avg _ rest _ h3
      ∙ read_uint64-bind t.chunk_size_max [] rest _ h4
      ∙ rw write_uint64-nil

  pub read_fcaps-encode :
      (t : FormatFcaps)
      → t.header.size ≡ length t.content + 16
      → length t.content ≤ max_alloc
      → read_fcaps t.header (t.content ++ rest) ≡ ok (fcaps t, rest)
  unfolding read_fcaps
  read_fcaps-encode t e h =
      let n : body_size t.header 16 ≡ length t.content = omega arith in
      rw n (bind_step (read_n (length t.content)) _ (read_n-append t.content rest h))

  pub read_payload-encode :
      (t : FormatPayload)
      → t.header.size ≡ length t.content + 16
      → length t.content < 2 ^ 63
      → (payload_limit t.header ≡ length t.content)
        × (read_payload t.header (t.content ++ rest) ≡ ok (payload t, t.content ++ rest))
  unfolding read_payload payload_limit
  read_payload-encode t e h =
      let n : body_size t.header 16 ≡ length t.content = omega arith in
      (ground arith, ground (arith, take-length_append t.content rest))
