-- ===== src/Format/RoundTrip/Tables.antt =====
-- The bodies that hold a list: goodbye items, and the chunk table with its tail record.
use desync.Common.{
  ℕ, zero, suc, ◌+◌, ◌*◌, ◌/◌, ◌≤◌, ◌<◌, ◌≡◌, refl, ◌∙◌, true, false, List, [], ◌∷◌, ◌++◌, length,
  All, length-append, append_assoc, arith, ltb, ◌==◌,
}
use desync.Common.Outcome.{ok}
use desync.Format.Bodies.{body_size, read_goodbye_items, has_tail_marker, read_goodbye}
use desync.Format.Constants
use desync.Format.Decoder.{read_table_items, read_all_table_items, read_table_tail, read_table}
use desync.Format.Elements.{
  FormatGoodbye, FormatGoodbyeItem, FormatTable, FormatTableItem, goodbye, table,
}
use desync.Format.Encoder.{write_goodbye_items, write_table_items, write_table_tail}
use desync.Format.WellFormed.{IsGoodbyeItem, IsTableItem}
use desync.Stream.Defs.{max_alloc, write_uint64, write_id, read_id}
use desync.Stream.RoundTrip.{
  bind_step, read_uint64-bind, read_uint64-bind_mod, write_uint64-cons, length-write_uint64,
  write_uint64-nil, read_id-append,
}

read_goodbye_items-write :
    (items : List FormatGoodbyeItem) (rest : List ℕ)
    → All IsGoodbyeItem items
    → read_goodbye_items (length items) (write_goodbye_items items ++ rest) ≡ ok (items, rest)
unfolding read_goodbye_items write_goodbye_items
read_goodbye_items-write [] rest h = refl
read_goodbye_items-write (x ∷ xs) rest ((h1, h2, h3), hs) = rw append_assoc (
    read_uint64-bind x.offset _ _ _ h1
    ∙ read_uint64-bind x.size _ _ _ h2
    ∙ read_uint64-bind x.hash [] _ _ h3
    ∙ rw write_uint64-nil
        (bind_step (read_goodbye_items (length xs)) _ (read_goodbye_items-write xs rest hs)))

pub read_goodbye-encode :
    (t : FormatGoodbye) (rest : List ℕ)
    → t.header.size ≡ 24 * length t.items + 16
    → 24 * length t.items ≤ max_alloc
    → All IsGoodbyeItem t.items
    → has_tail_marker t.items ≡ true
    → read_goodbye t.header (write_goodbye_items t.items ++ rest) ≡ ok (goodbye t, rest)
unfolding read_goodbye
read_goodbye-encode t rest e fits items marked =
    let n : body_size t.header 16 / 24 ≡ length t.items = omega arith in
    let small : ltb max_alloc (24 * length t.items) ≡ false = ground arith in
    rw (n, small)
      (bind_step (read_goodbye_items (length t.items)) _
          (read_goodbye_items-write t.items rest items)
        ∙ rw marked)

read_table_items-write :
    (items : List FormatTableItem) (fuel : ℕ) (rest : List ℕ)
    → All IsTableItem items
    → length items < fuel
    → read_table_items fuel (write_table_items items ++ (write_uint64 (0 ∷ []) ++ rest))
      ≡ ok (items, rest)
unfolding read_table_items write_table_items write_id
read_table_items-write items zero rest h fuel = elim fuel [ ]
read_table_items-write [] (suc fuel) rest h m =
    read_uint64-bind 0 [] rest _ (omega arith) ∙ rw write_uint64-nil
read_table_items-write (x ∷ xs) (suc fuel) rest ((ne, h1, h2), hs) m =
    let nonzero : (x.offset == 0) ≡ false = ground arith in
    rw (append_assoc) (
      read_uint64-bind x.offset [] _ _ h1
      ∙ rw (nonzero, write_uint64-nil, append_assoc)
          (bind_step read_id _ (read_id-append x.chunk _ h2)
            ∙ bind_step (read_table_items fuel) _
                (read_table_items-write xs fuel rest hs (omega arith))))

length-write_table_items-le :
    (items : List FormatTableItem) → length items ≤ length (write_table_items items)
unfolding write_table_items
length-write_table_items-le [] = omega arith
length-write_table_items-le (x ∷ xs) = omega (
  arith,
  length-append (write_uint64 (x.offset ∷ [])) (write_id x.chunk ++ write_table_items xs),
  length-append (write_id x.chunk) (write_table_items xs),
  length-write_uint64 (x.offset ∷ []),
  length-write_table_items-le xs,
)

-- The items are read with the fuel that the stream gives.
read_all_table_items-write :
    (items : List FormatTableItem) (rest : List ℕ)
    → All IsTableItem items
    → read_all_table_items (write_table_items items ++ (write_uint64 (0 ∷ []) ++ rest))
      ≡ ok (items, rest)
unfolding read_all_table_items
read_all_table_items-write items rest h = read_table_items-write items _ rest h (
    omega (
      arith,
      length-append (write_table_items items) (write_uint64 (0 ∷ []) ++ rest),
      length-write_table_items-le items,
    ))

-- The tail record behind its first zero, whatever size it gives.
read_table_tail-write :
    (n : ℕ) (rest : List ℕ)
    → read_table_tail
        (write_uint64 (0 ∷ 48 ∷ n ∷ Constants.ca_format_table_tail_marker ∷ []) ++ rest)
      ≡ ok (tt, rest)
unfolding read_table_tail
read_table_tail-write n rest =
    read_uint64-bind 0 _ rest _ (omega arith)
    ∙ read_uint64-bind 48 _ rest _ (omega arith)
    ∙ read_uint64-bind_mod n _ rest _
    ∙ read_uint64-bind Constants.ca_format_table_tail_marker [] rest _ (omega arith)
    ∙ rw write_uint64-nil

pub read_table-encode :
    (t : FormatTable) (n : ℕ) (rest : List ℕ)
    → t.header.size ≡ 0xffff_ffff_ffff_ffff
    → All IsTableItem t.items
    → read_table t.header (write_table_items t.items ++ (write_table_tail n ++ rest))
      ≡ ok (table t, rest)
unfolding read_table write_table_tail
read_table-encode t n rest e items =
    rw (e, write_uint64-cons 0, append_assoc)
      (bind_step read_all_table_items _ (read_all_table_items-write t.items _ items)
        ∙ bind_step read_table_tail _ (read_table_tail-write (n + 40) rest))
