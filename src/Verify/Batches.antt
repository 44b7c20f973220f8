-- ===== src/Verify/Batches.antt =====
-- About the batches of verifyindex.go and what validating them says.
use desync.Common.{
  ℕ, zero, suc, ◌+◌, ◌-◌, ◌*◌, ◌/◌, ◌≤◌, ◌<◌, ◌≡◌, ◌≢◌, ◌↔◌, refl, sym, ap, subst, ◌∙◌, List, [],
  ◌∷◌, ◌++◌, length, take, drop, drop-nil, drop-drop, All, length-drop, take-append-drop, ltb, leb,
  ◌==◌, Bool, true, false, Bool-cases, Option-cases, some, inl, inr, ◌⊎◌, not, ◌&&◌, if◌then◌else◌,
  arith,
}
use desync.Common.Outcome.{Outcome, ok, err, ◌>>=◌}
use desync.Chunk.Defs.{id_equal}
use desync.Chunk.Storage.{id_equal→eq, id_equal_refl}
use desync.Files.{File, read_at}
use desync.Index.Defs.{Index, IndexChunk, index_length}
use desync.Seeds.Writing.{SegmentError, validate, wrong_size}
use desync.Stream.Defs.{ChunkId}
use desync.Verify.{batches, validate_batches, verify_index}

-- The file has the data of the chunk, where the index says.
abbrev pub IsIntact : (List ℕ → ChunkId) → File → IndexChunk → Type 0
IsIntact sum f c = (b : List ℕ) × (read_at f c.size c.start ≡ some b) × (sum b ≡ c.id)

validate_sound :
    (sum : List ℕ → ChunkId) (f : File) (cs : List IndexChunk)
    → validate sum f cs ≡ ok tt
    → All (IsIntact sum f) cs
unfolding validate
validate_sound sum f [] h = tt
validate_sound sum f (c ∷ cs) h = elim (Option-cases (read_at f c.size c.start)) [
  | inl short ↦ let bad = rw (validate, short) at h in cc
  | inr (b, got) ↦ elim (Bool-cases (id_equal (sum b) c.id)) [
    | inl same ↦ (
      (b, got, id_equal→eq (sum b) c.id same),
      validate_sound sum f cs (rw (validate, got, same) at h),
    )
    | inr differ ↦ let bad = rw (validate, got, differ) at h in cc
  ]
]

validate_complete :
    (sum : List ℕ → ChunkId) (f : File) (cs : List IndexChunk)
    → All (IsIntact sum f) cs
    → validate sum f cs ≡ ok tt
unfolding validate
validate_complete sum f [] h = refl
validate_complete sum f (c ∷ cs) ((b, got, same), h) =
    let equal : id_equal (sum b) c.id ≡ true =
      subst (λ j. id_equal (sum b) j ≡ true) same (id_equal_refl (sum b)) in
    rw (validate, got, equal) (validate_complete sum f cs h)

validate-append :
    (sum : List ℕ → ChunkId) (f : File) (xs ys : List IndexChunk)
    → validate sum f (xs ++ ys) ≡ validate sum f xs >>= (λ u. validate sum f ys)
unfolding validate
validate-append sum f [] ys = refl
validate-append sum f (c ∷ xs) ys = elim (Option-cases (read_at f c.size c.start)) [
  | inl short ↦ rw (validate, short) refl
  | inr (b, got) ↦ elim (Bool-cases (id_equal (sum b) c.id)) [
    | inl same ↦ rw (validate, got, same) (validate-append sum f xs ys)
    | inr differ ↦ rw (validate, got, differ) refl
  ]
]

take-over : (n m : ℕ) (xs : List IndexChunk) → length xs ≤ n → length xs ≤ m → take n xs ≡ take m xs
take-over zero zero xs hn hm = refl
take-over zero (suc m) [] hn hm = refl
take-over (suc n) zero [] hn hm = refl
take-over (suc n) (suc m) [] hn hm = refl
take-over zero (suc m) (x ∷ xs) hn hm = let bad : ⊥ = omega arith in elim bad [ ]
take-over (suc n) zero (x ∷ xs) hn hm = let bad : ⊥ = omega arith in elim bad [ ]
take-over (suc n) (suc m) (x ∷ xs) hn hm =
    ap (λ l. x ∷ l) (take-over n m xs (omega arith) (omega arith))

drop-over : (n : ℕ) (xs : List IndexChunk) → length xs ≤ n → drop n xs ≡ []
drop-over n [] h = drop-nil n
drop-over zero (x ∷ xs) h = let bad : ⊥ = omega arith in elim bad [ ]
drop-over (suc n) (x ∷ xs) h = drop-over n xs (omega arith)

abbrev last_of : ℕ → ℕ → ℕ → ℕ
last_of batch num i = if leb num (i + batch) then num - 1 else i + batch

-- A batch is as many chunks as fit, up to the end.
take-batch :
    (chunks : List IndexChunk) (batch i : ℕ)
    → i < length chunks
    → take (last_of batch (length chunks) i + 1 - i) (drop i chunks)
      ≡ take (batch + 1) (drop i chunks)
take-batch chunks batch i h = elim (Bool-cases (leb (length chunks) (i + batch))) [
  | inl past ↦ rw past (
      take-over (length chunks - 1 + 1 - i) (batch + 1) (drop i chunks)
        (omega (arith, length-drop i chunks)) (ground (arith, length-drop i chunks, past)))
  | inr inside ↦ let size : i + batch + 1 - i ≡ batch + 1 = omega arith in rw (inside, size) refl
]

validate-take-drop :
    (sum : List ℕ → ChunkId) (f : File) (k : ℕ) (xs : List IndexChunk)
    → validate sum f (take k xs) >>= (λ u. validate sum f (drop k xs)) ≡ validate sum f xs
validate-take-drop sum f k xs =
    sym (validate-append sum f (take k xs) (drop k xs))
    ∙ ap (validate sum f) (take-append-drop k xs)

-- The batches from a position on are the chunks from there on.
validate_batches-batches :
    (sum : List ℕ → ChunkId) (cancelled : ℕ → Bool) (f : File) (chunks : List IndexChunk)
    (batch fuel i : ℕ)
    → ((k : ℕ) → cancelled k ≡ false)
    → length chunks < i + fuel
    → validate_batches sum f chunks (batches cancelled fuel batch (length chunks) i)
      ≡ validate sum f (drop i chunks)
unfolding batches validate_batches validate
validate_batches-batches sum cancelled f chunks batch zero i never h =
    rw (drop-over i chunks (omega arith)) refl
validate_batches-batches sum cancelled f chunks batch (suc fuel) i never h =
    elim (Bool-cases (ltb i (length chunks))) [
      | inr behind ↦ rw (batches, behind, drop-over i chunks (ground (arith, behind))) refl
      | inl more ↦
          let rest =
            validate_batches-batches sum cancelled f chunks batch fuel (i + batch + 1) never
              (omega arith) in
          let next : drop (batch + 1) (drop i chunks) ≡ drop (i + batch + 1) chunks =
            drop-drop i (batch + 1) chunks ∙ ap (λ n. drop n chunks) (omega arith) in
          rw
            (batches, more, never i, take-batch chunks batch i (ground (arith, more)), rest, ← next)
            (validate-take-drop sum f (batch + 1) (drop i chunks))
    ]

fits_sound : (d : Bool) (a b : ℕ) → (not d && not (a == b)) ≡ false → (d ≡ true) ⊎ (a ≡ b)
fits_sound true a b h = inl refl
fits_sound false a b h = inr (ground arith)

fits_complete : (d : Bool) (a b : ℕ) → (d ≡ true) ⊎ (a ≡ b) → (not d && not (a == b)) ≡ false
fits_complete true a b h = refl
fits_complete false a b (inl h) = cc
fits_complete false a b (inr h) = ground arith

-- With at least one worker and a context that is never cancelled: `VerifyIndex` succeeds if, and
-- only if, the file is a device or as long as the index says, and every chunk can be read from it
-- and has its digest.
pub verify_index_iff :
    (sum : List ℕ → ChunkId) (cancelled : ℕ → Bool) (is_device : Bool) (f : File) (idx : Index)
    (n : ℕ)
    → ((k : ℕ) → cancelled k ≡ false)
    → n ≢ 0
    → (verify_index sum cancelled is_device f idx n ≡ ok tt)
      ↔ (((is_device ≡ true) ⊎ (f.size ≡ index_length idx)) × All (IsIntact sum f) idx.chunks)
unfolding verify_index
verify_index_iff sum cancelled is_device f idx n never ne =
    let whole =
      validate_batches-batches sum cancelled f idx.chunks (length idx.chunks / (n * 10))
        (suc (length idx.chunks)) 0 never (omega arith) in
    let workers : (n == 0) ≡ false = ground arith in
    elim (Bool-cases (not is_device && not (f.size == index_length idx))) [
      | inl differs ↦ (
        λ h.
            let bad : ◌≡◌ {A = Outcome SegmentError (Unit {0})} (err wrong_size) (ok tt) =
              rw (verify_index, differs) at h in
            cc,
        λ h. let bad = fits_complete is_device f.size (index_length idx) h.0 in cc,
      )
      | inr fits ↦ (
        λ h. (
          fits_sound is_device f.size (index_length idx) fits,
          validate_sound sum f idx.chunks (sym whole ∙ (rw (verify_index, fits, workers) at h)),
        ),
        λ h. rw (verify_index, fits, workers) (whole ∙ validate_complete sum f idx.chunks h.1),
      )
    ]
