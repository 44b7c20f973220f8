-- ===== src/Format/RoundTrip/Elements.antt =====
-- `Next` on what `Encode` wrote, for every kind of element and for sequences of them.
use desync.Common.{
  ℕ, zero, suc, ◌+◌, ◌<◌, ◌≡◌, refl, ap, ◌∙◌, List, [], ◌∷◌, ◌++◌, length, All, drop-length_append,
  append_assoc, arith, none, some,
}
use desync.Common.Outcome.{ok}
use desync.Format.Bodies.{
  read_user, read_group, read_xattr, read_selinux, read_filename, read_symlink,
}
use desync.Format.Decoder.{
  FormatDecoder, header_error, new_format_decoder, read_kind, read_element, skip_advance,
  advance_of, next_from, next, next_all,
}
use desync.Format.Elements.{
  FormatElement, entry, user, group, xattr, selinux, filename, symlink, device, payload, fcaps,
  acl_user, acl_group, acl_group_obj, acl_default, goodbye, index, table,
}
use desync.Format.Encoder.{
  encode, write_text, write_goodbye_items, write_table_items, write_table_tail, encode_all,
}
use desync.Format.Mode.{filemode_to_stat_mode}
use desync.Format.Mode.RoundTrip.{IsStatMode-lt, filemode_to_stat_mode-stat_mode_to_filemode}
use desync.Format.RoundTrip.Bodies
use desync.Format.RoundTrip.Tables
use desync.Format.WellFormed.{IsWellFormed, HasText}
use desync.Stream.Defs.{FormatHeader, IsU64, read_full, read_uint64, read_header, write_uint64}
use desync.Stream.RoundTrip.{read_header-write_uint64, write_uint64-nil, write_uint64-pair}

abbrev header_of : FormatElement → FormatHeader
header_of (entry t) = t.header
header_of (user t) = t.header
header_of (group t) = t.header
header_of (xattr t) = t.header
header_of (selinux t) = t.header
header_of (filename t) = t.header
header_of (symlink t) = t.header
header_of (device t) = t.header
header_of (payload t) = t.header
header_of (fcaps t) = t.header
header_of (acl_user t) = t.header
header_of (acl_group t) = t.header
header_of (acl_group_obj t) = t.header
header_of (acl_default t) = t.header
header_of (goodbye t) = t.header
header_of (index t) = t.header
header_of (table t) = t.header

-- What the decoder leaves in the stream for later: the content of a payload.
abbrev left_over : FormatElement → List ℕ
left_over (payload t) = t.content
left_over _ = []

-- What follows the header in the encoding of an element, with the bytes behind it.
record Encodes (e : FormatElement) (rest : List ℕ) : Type 0 where
  body : List ℕ
  written : encode e ++ rest ≡ write_uint64 ((header_of e).size ∷ (header_of e).type ∷ []) ++ body
  size_fits : IsU64 (header_of e).size
  type_fits : IsU64 (header_of e).type
  read : read_element (header_of e) body ≡ ok (e, left_over e ++ rest)

module _ (e : FormatElement) (rest body : List ℕ) (type : ℕ) where
  encodes :
      encode e ≡ write_uint64 ((header_of e).size ∷ (header_of e).type ∷ []) ++ body
      → (header_of e).type ≡ type
      → IsU64 (header_of e).size
      → IsU64 type
      → read_kind type (header_of e) (body ++ rest) ≡ ok (e, left_over e ++ rest)
      → Encodes e rest
  unfolding read_element
  encodes w k hs ht r = record {
    body = body ++ rest;
    written = rw (w, append_assoc);
    size_fits = hs;
    type_fits = omega arith;
    read = ap (λ t. read_kind t (header_of e) (body ++ rest)) k ∙ r;
  }

  -- An element whose encoding is a header and a string.
  text-Encodes :
      (name : List ℕ)
      → encode e ≡ write_text (header_of e) name
      → HasText (header_of e) type 16 name
      → IsU64 type
      → body ≡ name ++ (0 ∷ [])
      → read_kind type (header_of e) ((name ++ (0 ∷ [])) ++ rest) ≡ ok (e, left_over e ++ rest)
      → Encodes e rest
  unfolding write_text
  text-Encodes name w h ht b r = encodes (w ∙ rw b) h.0.1 (omega arith) ht (rw b r)

-- Every well-formed element is its header and a body that the decoder reads.
Encodes-IsWellFormed : (e : FormatElement) (rest : List ℕ) → IsWellFormed e → Encodes e rest
unfolding encode write_text read_kind
Encodes-IsWellFormed (entry t) rest ((hs, hk), h1, (s, known, em), h2, h3, h4, h5) =
    let same : filemode_to_stat_mode t.mode ≡ s =
      ap filemode_to_stat_mode em ∙ filemode_to_stat_mode-stat_mode_to_filemode s known in
    encodes (entry t) rest
      (write_uint64 (t.feature_flags ∷ s ∷ t.flags ∷ t.uid ∷ t.gid ∷ t.mtime ∷ [])) _
      (rw (same, write_uint64-pair)) hk (omega arith) (omega arith)
      (Bodies.read_entry-encode t s rest hs h1 (IsStatMode-lt s known) em h2 h3 h4 h5)
Encodes-IsWellFormed (user t) rest h =
    text-Encodes (user t) rest _ _ t.name refl h (omega arith) refl
      (unfold read_user in Bodies.read_text-bind t.header 16 _ t.name rest _ h (omega arith))
Encodes-IsWellFormed (group t) rest h =
    text-Encodes (group t) rest _ _ t.name refl h (omega arith) refl
      (unfold read_group in Bodies.read_text-bind t.header 16 _ t.name rest _ h (omega arith))
Encodes-IsWellFormed (xattr t) rest h =
    text-Encodes (xattr t) rest _ _ t.name_and_value refl h (omega arith) refl (
      unfold read_xattr in
      Bodies.read_text-bind t.header 16 _ t.name_and_value rest _ h (omega arith))
Encodes-IsWellFormed (selinux t) rest h =
    text-Encodes (selinux t) rest _ _ t.label refl h (omega arith) refl
      (unfold read_selinux in Bodies.read_text-bind t.header 16 _ t.label rest _ h (omega arith))
Encodes-IsWellFormed (filename t) rest h =
    text-Encodes (filename t) rest _ _ t.name refl h (omega arith) refl
      (unfold read_filename in Bodies.read_text-bind t.header 16 _ t.name rest _ h (omega arith))
Encodes-IsWellFormed (symlink t) rest h =
    text-Encodes (symlink t) rest _ _ t.target refl h (omega arith) refl
      (unfold read_symlink in Bodies.read_text-bind t.header 16 _ t.target rest _ h (omega arith))
Encodes-IsWellFormed (device t) rest ((hs, hk), h1, h2) =
    encodes (device t) rest (write_uint64 (t.major ∷ t.minor ∷ [])) _ (rw write_uint64-pair) hk
      (omega arith) (omega arith) (Bodies.read_device-encode t rest hs h1 h2)
Encodes-IsWellFormed (payload t) rest ((hs, hk), h) =
    encodes (payload t) rest t.content _ refl hk (omega arith) (omega arith)
      (Bodies.read_payload-encode rest t hs h).1
Encodes-IsWellFormed (fcaps t) rest ((hs, hk), h) =
    encodes (fcaps t) rest t.content _ refl hk (omega arith) (omega arith)
      (Bodies.read_fcaps-encode rest t hs h)
Encodes-IsWellFormed (acl_user t) rest (h, h1, h2) =
    encodes (acl_user t) rest (write_uint64 (t.uid ∷ t.permissions ∷ []) ++ (t.name ++ (0 ∷ []))) _
      (rw (write_uint64-pair, append_assoc)) h.0.1 (omega arith) (omega arith)
      (rw append_assoc (Bodies.read_acl_user-encode rest t h h1 h2))
Encodes-IsWellFormed (acl_group t) rest (h, h1, h2) =
    encodes (acl_group t) rest (write_uint64 (t.gid ∷ t.permissions ∷ []) ++ (t.name ++ (0 ∷ []))) _
      (rw (write_uint64-pair, append_assoc)) h.0.1 (omega arith) (omega arith)
      (rw append_assoc (Bodies.read_acl_group-encode rest t h h1 h2))
Encodes-IsWellFormed (acl_group_obj t) rest (hs, hk, h) =
    encodes (acl_group_obj t) rest (write_uint64 (t.permissions ∷ [])) _ (rw write_uint64-pair) hk
      hs (omega arith) (Bodies.read_acl_group_obj-encode rest t h)
Encodes-IsWellFormed (acl_default t) rest (hs, hk, h1, h2, h3, h4) =
    encodes (acl_default t) rest _ _ (write_uint64-pair t.header.size t.header.type _) hk hs
      (omega arith) (Bodies.read_acl_default-encode rest t h1 h2 h3 h4)
Encodes-IsWellFormed (goodbye t) rest ((hs, hk), fits, items, marked) =
    encodes (goodbye t) rest (write_goodbye_items t.items) _ refl hk (omega arith) (omega arith)
      (Tables.read_goodbye-encode t rest hs fits items marked)
Encodes-IsWellFormed (index t) rest (hs, hk, h1, h2, h3, h4) =
    encodes (index t) rest _ _ (write_uint64-pair t.header.size t.header.type _) hk hs (omega arith)
      (Bodies.read_index-encode rest t h1 h2 h3 h4)
Encodes-IsWellFormed (table t) rest ((hs, hk), items) =
    let n : ℕ =
      length (write_uint64 (t.header.size ∷ t.header.type ∷ []) ++ write_table_items t.items) in
    encodes (table t) rest (write_table_items t.items ++ write_table_tail n) _ (rw append_assoc) hk
      (omega arith) (omega arith) (rw append_assoc (Tables.read_table-encode t n rest hs items))

-- The decoder behind an element: at most the content of a payload is still to be skipped.
skip_advance-left_over :
    (e : FormatElement) (rest : List ℕ)
    → IsWellFormed e
    → skip_advance (record { rest = left_over e ++ rest; advance = advance_of e }) ≡ rest
unfolding skip_advance advance_of
skip_advance-left_over (payload t) rest ((hs, hk), h) =
    rw ((Bodies.read_payload-encode rest t hs h).0) (drop-length_append t.content rest)
skip_advance-left_over _ rest h = refl

-- `Next` on the encoding of a well-formed element returns that element, and the decoder goes on
-- with the bytes behind the encoding, whether or not the content of a payload is read before.
pub next-encode :
    (e : FormatElement) (d : FormatDecoder) (rest : List ℕ)
    → IsWellFormed e
    → skip_advance d ≡ encode e ++ rest
    → (d' : FormatDecoder) × (next d ≡ ok (some e, d')) × (skip_advance d' ≡ rest)
unfolding next next_from
next-encode e d rest h at =
    let f = Encodes-IsWellFormed e rest h in
    let got = read_header-write_uint64 _ _ [] f.body f.size_fits f.type_fits in
    (
      record { rest = left_over e ++ rest; advance = advance_of e },
      rw (at, f.written, next_from, got, write_uint64-nil, f.read),
      skip_advance-left_over e rest h,
    )

next_at_end : (d : FormatDecoder) → skip_advance d ≡ [] → next d ≡ ok (none, new_format_decoder [])
unfolding next next_from header_error read_header read_uint64 read_full new_format_decoder
next_at_end d at = rw at

next_all-from :
    (es : List FormatElement) (fuel : ℕ) (d : FormatDecoder)
    → All IsWellFormed es
    → length es < fuel
    → skip_advance d ≡ encode_all es
    → next_all fuel d ≡ ok es
unfolding next_all encode_all
next_all-from es zero d h m at = elim m [ ]
next_all-from [] (suc fuel) d h m at = rw (next_all, next_at_end d at)
next_all-from (e ∷ es) (suc fuel) d (h, hs) m at =
    let (d', got, at') = next-encode e d (encode_all es) h at in
    rw (next_all, got, next_all-from es fuel d' hs (omega arith) at')

-- Calling `Next` until it returns nil, over the encodings of well-formed elements one behind the
-- other, gives those elements in order; one call more than there are elements is enough.
pub next_all-encode_all :
    (es : List FormatElement)
    → All IsWellFormed es
    → next_all (length es + 1) (new_format_decoder (encode_all es)) ≡ ok es
next_all-encode_all es h =
    next_all-from es (length es + 1) _ h (omega arith)
      (unfold new_format_decoder skip_advance in refl)
