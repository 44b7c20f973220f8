-- ===== src/Tests/Elements.antt =====
-- An archive of one file, and an index of three chunks.
use desync.Common.{
  ℕ, ◌+◌, ◌≡◌, refl, ◌⊎◌, ◌↔◌, inl, inr, List, [], ◌∷◌, length, replicate, All, true, none, arith,
}
use desync.Common.Outcome.{ok, panic}
use desync.Format.Bodies.{has_tail_marker, read_text}
use desync.Format.Constants
use desync.Format.Decoder.{FormatDecoder, new_format_decoder, next, next_all, skip_advance}
use desync.Format.Decoder.End.{read_text_panics, next_nil_iff}
use desync.Format.Elements.{FormatElement, FormatIndex, entry, payload, goodbye, user}
use desync.Format.Encoder.{encode_all}
use desync.Format.Mode.{stat_mode_to_filemode, filemode_to_stat_mode}
use desync.Format.Mode.RoundTrip.{IsStatMode, filemode_to_stat_mode-stat_mode_to_filemode}
use desync.Format.RoundTrip.Elements.{next_all-encode_all}
use desync.Format.WellFormed.{IsWellFormed}
use desync.Index.Defs.{Index, sha512_256, check_digest, index_from_reader, write_to}
use desync.Index.RoundTrip.{IsIndexOf, index_from_reader-write_to}

abbrev regular_file : FormatElement
regular_file = entry (record {
  header = record { size = 64; type = Constants.ca_format_entry };
  feature_flags = 0;
  mode = stat_mode_to_filemode 0o100644;
  flags = 0;
  uid = 1000;
  gid = 1000;
  mtime = 1500000000;
})

abbrev owner : FormatElement
owner =
    user (record { header = record { size = 18; type = Constants.ca_format_user }; name = 97 ∷ [] })

abbrev file_content : FormatElement
file_content = payload (record {
  header = record { size = 19; type = Constants.ca_format_payload };
  content = 1 ∷ 2 ∷ 3 ∷ [];
})

abbrev tail : FormatElement
tail = goodbye (record {
  header = record { size = 40; type = Constants.ca_format_goodbye };
  items = record { offset = 5; size = 24; hash = Constants.ca_format_goodbye_tail_marker } ∷ [];
})

abbrev archive : List FormatElement
archive = regular_file ∷ owner ∷ file_content ∷ tail ∷ []

is_regular : IsStatMode 0o100644
is_regular = inr (inr (inr (inr (inl (omega arith)))))

tail_marked :
    has_tail_marker
      (record { offset = 5; size = 24; hash = Constants.ca_format_goodbye_tail_marker } ∷ [])
    ≡ true
unfolding has_tail_marker
tail_marked = refl

regular_file-IsWellFormed : IsWellFormed regular_file
regular_file-IsWellFormed = (
  (refl, refl),
  omega arith,
  (0o100644, is_regular, refl),
  omega arith,
  omega arith,
  omega arith,
  omega arith,
)

archive-IsWellFormed : All IsWellFormed archive
archive-IsWellFormed = (
  regular_file-IsWellFormed,
  (
    ((refl, refl), omega arith),
    (
      ((refl, refl), omega arith),
      (((refl, refl), omega arith, ((omega arith, omega arith, omega arith), tt), tail_marked), tt),
    ),
  ),
)

next_all-encode_all_example :
    next_all (length archive + 1) (new_format_decoder (encode_all archive)) ≡ ok archive
next_all-encode_all_example = next_all-encode_all archive archive-IsWellFormed

filemode_to_stat_mode-stat_mode_to_filemode_example :
    filemode_to_stat_mode (stat_mode_to_filemode 0o100644) ≡ 0o100644
filemode_to_stat_mode-stat_mode_to_filemode_example =
    filemode_to_stat_mode-stat_mode_to_filemode 0o100644 is_regular

abbrev no_bytes : ℕ
no_bytes = 0

read_text_panics_example : (read_text no_bytes (1 ∷ []) ≡ panic) ↔ (no_bytes ≡ 0)
read_text_panics_example = read_text_panics no_bytes (1 ∷ []) (omega arith)

abbrev cut_decoder : FormatDecoder
cut_decoder = new_format_decoder (replicate 8 1)

next_nil_iff_example :
    ((d' : FormatDecoder) × (next cut_decoder ≡ ok (none, d')))
    ↔ ((length (skip_advance cut_decoder) ≡ 0) ⊎ (length (skip_advance cut_decoder) ≡ 8))
next_nil_iff_example = next_nil_iff cut_decoder

abbrev sizes : FormatIndex
sizes = record {
  header = record { size = 48; type = Constants.ca_format_index };
  feature_flags = 0xa000000000000000;
  chunk_size_min = 16;
  chunk_size_avg = 64;
  chunk_size_max = 256;
}

abbrev three_chunks : Index
three_chunks = record {
  index = sizes;
  chunks =
      record { id = replicate 32 1; start = 0; size = 100 }
      ∷ record { id = replicate 32 2; start = 100; size = 256 }
      ∷ record { id = replicate 32 1; start = 356; size = 7 }
      ∷ [];
}

sha512_256-checked : check_digest sha512_256 0xa000000000000000 ≡ ok tt
unfolding check_digest
sha512_256-checked = refl

three_chunks-IsIndexOf : IsIndexOf sha512_256 three_chunks 363
three_chunks-IsIndexOf = record {
  size = refl;
  type = refl;
  feature_flags = omega arith;
  chunk_size_min = omega arith;
  chunk_size_avg = omega arith;
  chunk_size_max = omega arith;
  digest = sha512_256-checked;
  tiles = (refl, (refl, (refl, refl)));
  total_fits = omega arith;
  chunks = (
    (refl, omega arith, omega arith),
    ((refl, omega arith, omega arith), ((refl, omega arith, omega arith), tt)),
  );
}

index_from_reader-write_to_example :
    index_from_reader sha512_256 (write_to three_chunks) ≡ ok three_chunks
index_from_reader-write_to_example =
    index_from_reader-write_to sha512_256 three_chunks 363 three_chunks-IsIndexOf
