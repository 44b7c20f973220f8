-- ===== src/Chunker/Stream.antt =====
-- About `fillBuffer` and `Next` of chunker.go: the bytes of the stream and the sizes of the data.
use desync.Common.{
  ℕ, zero, suc, ◌+◌, ◌-◌, ◌*◌, ◌%◌, ◌^◌, ◌≤◌, ◌<◌, ◌≡◌, refl, sym, ap, ◌∙◌, List, [], ◌∷◌, ◌++◌,
  length, take, drop, leb, ltb, min, if◌then◌else◌, length-append, length-take, length-drop,
  take-append-drop, append_assoc, append-nil, Option, none, some, true, Bool-cases, inl, inr, ◌⊎◌,
  arith,
}
use desync.Chunker.Defs.{
  Chunker, Rolling, Split, fill_buffer, split, scan, next_in_buffer, after_fill, next, add_byte,
  filled, reported, below_int, within_int, min_int,
}
use desync.Chunker.Source.{Source, ReadError, end_of_file, piece, last, eof, failed, fill, contents}
use desync.Chunker.Words.{Divider}

-- What the loop of `fillBuffer` reads and what it leaves are the contents of the source.
pub fill-contents :
    (room : ℕ) (s : Source) → (fill room s).bytes ++ contents (fill room s).source ≡ contents s
unfolding fill contents
fill-contents room eof = ground arith
fill-contents room (failed e) = ground arith
fill-contents room (last b) = ground (arith, take-append-drop room b, append-nil b)
fill-contents room (piece b s) = ground (
  arith,
  append_assoc b (fill (room - length b) s).bytes (contents (fill (room - length b) s).source),
  append_assoc (take room b) (drop room b) (contents s),
  take-append-drop room b,
  fill-contents (room - length b) s,
)

-- At the end of the file nothing is left.
fill_at_end :
    (room : ℕ) (s : Source)
    → (fill room s).error ≡ some end_of_file
    → contents (fill room s).source ≡ []
unfolding fill contents
fill_at_end room eof h = ground arith
fill_at_end room (failed e) h = ground arith
fill_at_end room (last b) h = ground arith
fill_at_end room (piece b s) h = ground (arith, fill_at_end (room - length b) s)

-- Without an error the buffer is full.
pub fill_full :
    (room : ℕ) (s : Source) → (fill room s).error ≡ none → length (fill room s).bytes ≡ room
unfolding fill
fill_full room eof h = ground arith
fill_full room (failed e) h = ground arith
fill_full room (last b) h = ground (arith, length-take room b)
fill_full room (piece b s) h = ground (
  arith,
  fill_full (room - length b) s,
  length-append b (fill (room - length b) s).bytes,
  length-take room b,
)

-- The position that the loop gives lies behind at least one more byte, within the buffer, and not
-- behind the end of the largest chunk.
scan_bounds :
    (v : Divider) (m pos : ℕ) (h : Rolling) (b : ℕ) (bs : List ℕ)
    → (pos < (scan v m h pos (b ∷ bs)).0)
      × ((scan v m h pos (b ∷ bs)).0 ≤ pos + length (b ∷ bs))
      × ((scan v m h pos (b ∷ bs)).0 ≤ (if ltb pos m then m else pos + 1))
unfolding scan
scan_bounds v m pos h b [] = ground arith
scan_bounds v m pos h b (x ∷ bs) = ground (arith, scan_bounds v m (pos + 1) (add_byte h b) x bs)

-- The bytes that a chunker still has to give.
abbrev pub remaining : Chunker → List ℕ
remaining c = c.buf ++ contents c.r

-- A chunker with sizes that `NewChunker` accepts, the smallest below the largest, and ten times the
-- largest below 2 ^ 63; behind the end of the file the source has nothing.
pub record IsChunker (c : Chunker) : Type 0 where
  pub window : 48 ≤ c.min
  pub sizes : c.min < c.max
  pub fits : 10 * c.max < 2 ^ 63
  pub at_end : c.hit_eof ≡ true → contents c.r ≡ []

-- Below 2 ^ 63 the conversions to `int` change nothing.
below_int_lem : (n m : ℕ) → m < 2 ^ 63 → below_int n m ≡ ltb n m
unfolding below_int
below_int_lem n m h = ground arith

within_int_lem : (n m : ℕ) → m < 2 ^ 63 → within_int n m ≡ leb n m
unfolding within_int
within_int_lem n m h = ground arith

min_int_lem : (n m : ℕ) → m < 2 ^ 63 → min_int n m ≡ min n m
unfolding min_int
min_int_lem n m h = ground arith

take-all : {A : Type 0} (n : ℕ) (xs : List A) → length xs ≤ n → take n xs ≡ xs
take-all zero [] h = refl
take-all zero (x ∷ xs) h = absurd (omega arith)
take-all (suc n) [] h = refl
take-all (suc n) (x ∷ xs) h = ap (λ l. x ∷ l) (take-all n xs (omega arith))

module _ (c : Chunker) (w : IsChunker c) (short : length c.buf < c.max) where
  fill_buffer-remaining : remaining (fill_buffer c).1 ≡ remaining c
  unfolding fill_buffer filled
  fill_buffer-remaining =
      let room = 10 * c.max % 2 ^ 64 - length c.buf in
      ground (
        arith,
        take-all (10 * c.max % 2 ^ 64) c.buf (omega (arith, w.fits)),
        w.fits,
        append_assoc c.buf (fill room c.r).bytes (contents (fill room c.r).source),
        fill-contents room c.r,
      )

  fill_buffer_done :
      (fill_buffer c).0 ≡ none
      → (contents (fill_buffer c).1.r ≡ []) ⊎ (c.max ≤ length (fill_buffer c).1.buf)
  unfolding fill_buffer filled reported
  fill_buffer_done h =
      let room = 10 * c.max % 2 ^ 64 - length c.buf in
      ground (
        arith,
        w.at_end,
        take-all (10 * c.max % 2 ^ 64) c.buf (omega (arith, w.fits)),
        w.fits,
        fill_at_end room c.r,
        fill_full room c.r,
        length-append c.buf (fill room c.r).bytes,
      )

  fill_buffer-IsChunker :
      IsChunker (fill_buffer c).1
      × ((fill_buffer c).1.start ≡ c.start)
      × ((fill_buffer c).1.min ≡ c.min)
      × ((fill_buffer c).1.max ≡ c.max)
  unfolding fill_buffer filled reported
  fill_buffer-IsChunker =
      let room = 10 * c.max % 2 ^ 64 - length c.buf in
      (
        record {
          window = ground (arith, w.window);
          sizes = ground (arith, w.sizes);
          fits = ground (arith, w.fits);
          at_end = λ h. ground (arith, w.at_end, fill_at_end room c.r);
        },
        ground arith,
        ground arith,
        ground arith,
      )

-- What a call of `Next` does: the data are the front of the stream; without an error they fit the
-- largest size, and are more than the smallest one unless the stream ends with them.
pub record IsNextOf (c : Chunker) (s : Split) : Type 0 where
  pub kept : s.bytes ++ remaining s.chunker ≡ remaining c
  pub start : s.start ≡ c.start
  pub moved : s.chunker.start ≡ (c.start + length s.bytes) % 2 ^ 64
  pub at_most : s.error ≡ none → length s.bytes ≤ c.max
  pub above_min : s.error ≡ none → (c.min < length s.bytes) ⊎ (remaining s.chunker ≡ [])
  pub valid : IsChunker s.chunker
  pub same_min : s.chunker.min ≡ c.min
  pub same_max : s.chunker.max ≡ c.max

drop-all : (xs : List ℕ) → drop (length xs) xs ≡ []
drop-all [] = refl
drop-all (x ∷ xs) = drop-all xs

split-IsNextOf :
    (c : Chunker) (i : ℕ) (e : Option ReadError)
    → IsChunker c
    → i ≤ length c.buf
    → (e ≡ none → i ≤ c.max)
    → (e ≡ none → (c.min < i) ⊎ ((i ≡ length c.buf) × (contents c.r ≡ [])))
    → IsNextOf c (split c i e)
unfolding split
split-IsNextOf c i e w h hm hn = record {
  kept =
      sym (append_assoc (take i c.buf) (drop i c.buf) (contents c.r))
      ∙ ap (λ l. l ++ contents c.r) (take-append-drop i c.buf);
  start = refl;
  moved = ground (arith, length-take i c.buf);
  at_most = λ n. ground (arith, hm n, length-take i c.buf);
  above_min = λ n. elim (hn n) [
    | inl p ↦ inl (ground (arith, length-take i c.buf))
    | inr (q, z) ↦ inr (ground (arith, drop-all c.buf))
  ];
  valid = record { window = w.window; sizes = w.sizes; fits = w.fits; at_end = w.at_end };
  same_min = refl;
  same_max = refl;
}

pub drop-cons :
    (n : ℕ) (xs : List ℕ) → n < length xs → (x : ℕ) × (rest : List ℕ) × (drop n xs ≡ x ∷ rest)
drop-cons n [] h = absurd (omega arith)
drop-cons zero (x ∷ xs) h = (x, xs, refl)
drop-cons (suc n) (x ∷ xs) h = drop-cons n xs (omega arith)

length-drop_cons :
    (n : ℕ) (xs : List ℕ) (x : ℕ) (rest : List ℕ)
    → drop n xs ≡ x ∷ rest
    → n ≤ length xs
    → length xs ≡ n + length (x ∷ rest)
length-drop_cons n xs x rest e h = omega (arith, ap (λ (l : List ℕ). length l) e, length-drop n xs)

module _ (c : Chunker) (w : IsChunker c) where
  -- A position behind the smallest chunk, in the buffer and not behind the largest chunk.
  inside :
      (i : ℕ) (h : Rolling)
      → c.min < i
      → i ≤ min (length c.buf) c.max
      → IsNextOf c
          (split (record c { h_value = h.value; h_window = h.window; h_idx = h.idx }) i none)
  inside i h lo hi =
      let c' : Chunker = record c { h_value = h.value; h_window = h.window; h_idx = h.idx } in
      let w' : IsChunker c' = record {
        window = w.window;
        sizes = w.sizes;
        fits = w.fits;
        at_end = w.at_end;
      } in
      let s = split-IsNextOf c' i none w' (omega arith) (λ n. omega arith) (λ n. inl lo) in
      record {
        kept = s.kept;
        start = s.start;
        moved = s.moved;
        at_most = s.at_most;
        above_min = s.above_min;
        valid = s.valid;
        same_min = s.same_min;
        same_max = s.same_max;
      }

  -- Where the loop stops is such a position.
  scanned :
      (h : Rolling) (x : ℕ) (rest : List ℕ) (i : ℕ) (h' : Rolling)
      → length c.buf ≡ c.min + length (x ∷ rest)
      → scan c.divider (min (length c.buf) c.max) h c.min (x ∷ rest) ≡ (i, h')
      → IsNextOf c
          (split (record c { h_value = h'.value; h_window = h'.window; h_idx = h'.idx }) i none)
  scanned h x rest i h' e p =
      let (lo, mid, hi) = scan_bounds c.divider (min (length c.buf) c.max) c.min h x rest in
      let here : (scan c.divider (min (length c.buf) c.max) h c.min (x ∷ rest)).0 ≡ i =
        ap (λ (q : ℕ × Rolling). q.0) p in
      inside i h' (omega arith) (ground (arith, w.sizes))

  next_in_buffer-IsNextOf :
      (contents c.r ≡ []) ⊎ (c.max ≤ length c.buf) → IsNextOf c (next_in_buffer c)
  unfolding next_in_buffer
  next_in_buffer-IsNextOf done =
      let m_fits : c.max < 2 ^ 63 = omega (arith, w.fits) in
      let in_min = within_int_lem (length c.buf) c.min (omega (arith, w.sizes)) in
      elim (Bool-cases (leb (length c.buf) c.min)) [
        | inl few ↦
            rw (next_in_buffer, in_min, few)
              (split-IsNextOf c (length c.buf) none w (omega arith) (λ n. ground (arith, w.sizes))
                (λ n. inr (refl, ground (arith, w.sizes))))
        | inr enough ↦
            let (x, rest, e) = drop-cons c.min c.buf (ground arith) in
            let more = length-drop_cons c.min c.buf x rest e (ground arith) in
            rw (next_in_buffer, in_min, enough, e, min_int_lem (length c.buf) c.max m_fits)
              (scanned _ x rest _ _ more refl)
      ]

after_fill-IsNextOf :
    (o : Option ReadError) (d : Chunker)
    → IsChunker d
    → (o ≡ none → (contents d.r ≡ []) ⊎ (d.max ≤ length d.buf))
    → IsNextOf d (after_fill (o, d))
unfolding after_fill
after_fill-IsNextOf none d w done = next_in_buffer-IsNextOf d w (done refl)
after_fill-IsNextOf (some x) d w done =
    split-IsNextOf d (length d.buf) (some x) w (omega arith) (λ h. cc) (λ h. cc)

module _ (c : Chunker) (w : IsChunker c) where
  -- Behind a call of `fillBuffer`, which keeps the stream and the sizes.
  through :
      (d : Chunker) (s : Split)
      → remaining d ≡ remaining c
      → d.start ≡ c.start
      → d.min ≡ c.min
      → d.max ≡ c.max
      → IsNextOf d s
      → IsNextOf c s
  through d s er es em ex n = record {
    kept = n.kept ∙ er;
    start = n.start ∙ es;
    moved = rw (← es) n.moved;
    at_most = λ h. rw (← ex) (n.at_most h);
    above_min = λ h. rw (← em) (n.above_min h);
    valid = n.valid;
    same_min = n.same_min ∙ em;
    same_max = n.same_max ∙ ex;
  }

  -- The statement of `IsNextOf` holds for every call of `Next`.
  pub next-IsNextOf : IsNextOf c (next c)
  unfolding next
  next-IsNextOf =
      let below = below_int_lem (length c.buf) c.max (omega (arith, w.fits)) in
      elim (Bool-cases (ltb (length c.buf) c.max)) [
        | inl short ↦
            let small : length c.buf < c.max = ground arith in
            let (v, es, em, ex) = fill_buffer-IsChunker c w small in
            rw (next, below, short)
              (through (fill_buffer c).1 _ (fill_buffer-remaining c w small) es em ex (
                after_fill-IsNextOf (fill_buffer c).0 (fill_buffer c).1 v
                  (λ h. rw ex (fill_buffer_done c w small h))))
        | inr full ↦ rw (next, below, full) (next_in_buffer-IsNextOf c w (inr (ground arith)))
      ]
