-- ===== src/Chunker/Advance.antt =====
-- `Advance` of chunker.go, for a reader that cannot seek.
use desync.Common.{
  ℕ, zero, suc, ◌+◌, ◌-◌, ◌%◌, ◌^◌, ◌≤◌, ◌≡◌, refl, ap, ◌∙◌, List, [], ◌∷◌, ◌++◌, length, drop, leb,
  ◌==◌, Option, none, if◌then◌else◌, drop-length_append, Bool-cases, inl, inr, arith,
}
use desync.Chunker.Defs.{Chunker}
use desync.Chunker.Source.{Source, ReadError, fill, contents}
use desync.Chunker.Stream.{remaining, fill-contents, fill_full}

-- `io.CopyN(io.Discard, r, n)`, whose error counts only if fewer bytes were read.
unfoldable pub discard : ℕ → Source → Option ReadError × Source
discard n r =
    let f = fill n r in if length f.bytes == n then (none, f.source) else (f.error, f.source)

unfoldable pub advance : ℕ → Chunker → Option ReadError × Chunker
advance n c =
    let start : ℕ = (c.start + n) % 2 ^ 64 in
    if leb n (length c.buf)
    then (none, record c { start = start; buf = drop n c.buf })
    else let (e, r) = discard (n - length c.buf) c.r in
      (e, record c { start = start; buf = []; r = r })

pub drop-append : (n : ℕ) (xs ys : List ℕ) → n ≤ length xs → drop n (xs ++ ys) ≡ drop n xs ++ ys
drop-append zero xs ys h = refl
drop-append (suc n) [] ys h = absurd (omega arith)
drop-append (suc n) (x ∷ xs) ys h = drop-append n xs ys (omega arith)

pub drop-append_behind :
    (n : ℕ) (xs ys : List ℕ) → length xs ≤ n → drop n (xs ++ ys) ≡ drop (n - length xs) ys
drop-append_behind n [] ys h = ap (λ k. drop k ys) (omega arith)
drop-append_behind zero (x ∷ xs) ys h = absurd (omega arith)
drop-append_behind (suc n) (x ∷ xs) ys h =
    drop-append_behind n xs ys (omega arith) ∙ ap (λ k. drop k ys) (omega arith)

discard-contents :
    (n : ℕ) (r : Source) → (discard n r).0 ≡ none → contents (discard n r).1 ≡ drop n (contents r)
unfolding discard
discard-contents n r h = ground (
  arith,
  fill_full n r,
  fill-contents n r,
  drop-length_append (fill n r).bytes (contents (fill n r).source),
)

-- `Advance` without an error drops the next `n` bytes of the stream.
advance-remaining :
    (n : ℕ) (c : Chunker)
    → (advance n c).0 ≡ none
    → remaining (advance n c).1 ≡ drop n (remaining c)
unfolding advance
advance-remaining n c h = elim (Bool-cases (leb n (length c.buf))) [
  | inl inside ↦ ground (arith, drop-append n c.buf (contents c.r))
  | inr behind ↦
      let rest = n - length c.buf in
      ground (arith, discard-contents rest c.r, drop-append_behind n c.buf (contents c.r))
]
