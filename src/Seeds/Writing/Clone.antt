-- ===== src/Seeds/Writing/Clone.antt =====
-- About `clone` of fileseed.go.
use desync.Common.{
  ℕ, ◌+◌, ◌-◌, ◌*◌, ◌/◌, ◌%◌, ◌^◌, ◌≤◌, ◌<◌, ◌≡◌, ◌≢◌, refl, sym, ap, ◌∙◌, ◌==◌, Bool, true, false,
  none, some, arith, List, ◌∷◌, Bool-cases, inl, inr, ==_refl,
}
use desync.Common.Outcome.{ok, err}
use native.Mathlib.Nat.{add-mul, mod-lt, mul-lt-mul_of_pos_right, div-add-mod'}
use desync.Files.{File, copy_range, copy_range-three}
use desync.Seeds.Writing.{
  CloneRange, copied_of, min_of, copy, word, minus, align_start, align_end, clone, clone_failed,
  write_chunks, write_file_segment,
}
use desync.Index.Defs.{IndexChunk}
use desync.Seeds.Defs.{size_of_chunks}

-- What the system call promises for whole blocks within the source.
abbrev pub Clones : CloneRange → ℕ → Type 0
Clones clone_range block =
    (dst src : File) (i n j : ℕ)
    → n ≢ 0
    → i * block + n * block ≤ src.size
    → clone_range dst src (i * block) (n * block) (j * block)
      ≡ some (copy_range dst src (i * block) (n * block) (j * block))

copied_of-whole :
    (src : File) (from n : ℕ) → from + n ≤ src.size → n < 2 ^ 63 → copied_of src from n ≡ n
unfolding copied_of min_of
copied_of-whole src from n h small = ground arith

minus-plain : (a b : ℕ) → b ≤ a → a < 2 ^ 63 → minus a b ≡ a - b
minus-plain a b h small = omega arith

-- The blocks of the two ranges: `start` and `end` in the source, `dst_start` in the target.
record IsAligned (from n off block start end dst_start : ℕ) : Type 0 where
  first : align_start from block ≡ start
  last : align_end from n block ≡ end
  dst_first : align_start off block ≡ dst_start
  before : from < start
  some_blocks : start < end
  after : end ≤ from + n
  same : off + start ≡ from + dst_start
  small : from + n + off + n < 2 ^ 62

three_parts :
    (dst src : File) (from n off start end dst_start : ℕ)
    → from < start
    → start < end
    → end ≤ from + n
    → off + start ≡ from + dst_start
    → copy_range
        (copy_range
          (copy_range dst src from (start - from) off)
          src
          end
          (from + n - end)
          (dst_start + (end - start)))
        src
        start
        (end - start)
        dst_start
      ≡ copy_range dst src from n off
three_parts dst src from n off start end dst_start before blocks after same =
    let e1 : from + (start - from) ≡ start = omega arith in
    let e2 : start + (end - start) ≡ end = omega arith in
    let e3 : off + (start - from) ≡ dst_start = omega arith in
    let e4 : start - from + (end - start) + (from + n - end) ≡ n = omega arith in
    rw (e1, e2, e3, e4) at
      (copy_range-three dst src from off (start - from) (end - start) (from + n - end) (omega arith)
        (omega arith))

clone-IsAligned :
    (clone_range : CloneRange) (dst src : File) (from n off block start end dst_start : ℕ)
    → (from % block == off % block) ≡ true
    → IsAligned from n off block start end dst_start
    → from + n ≤ src.size
    → ((d : File)
        → clone_range d src start (end - start) dst_start
          ≡ some (copy_range d src start (end - start) dst_start))
    → clone clone_range dst src from n off block
      ≡ (ok (n - (end - start), end - start), copy_range dst src from n off)
unfolding clone copy
clone-IsAligned clone_range dst src from n off block start end dst_start equal al fits clones =
    let len : minus end start ≡ end - start = omega (arith, al.some_blocks, al.after, al.small) in
    let front : minus start from ≡ start - from =
      omega (arith, al.before, al.some_blocks, al.after, al.small) in
    let back : minus (from + n) end ≡ from + n - end = omega (arith, al.after, al.small) in
    let there : word (dst_start + (end - start)) ≡ dst_start + (end - start) =
      omega (arith, al.same, al.some_blocks, al.after, al.small) in
    let c1 : copied_of src from (start - from) ≡ start - from =
      copied_of-whole src from (start - from) (omega (arith, al.before, al.some_blocks, al.after))
        (omega (arith, al.some_blocks, al.after, al.small)) in
    let c2 : copied_of src end (from + n - end) ≡ from + n - end =
      copied_of-whole src end (from + n - end) (omega (arith, al.after))
        (omega (arith, al.small)) in
    let total : word (start - from + (from + n - end)) ≡ n - (end - start) =
      omega (arith, al.before, al.some_blocks, al.after, al.small) in
    let three =
      three_parts dst src from n off start end dst_start al.before al.some_blocks al.after
        al.same in
    rw (clone, equal, al.first, al.last, al.dst_first, len, front, back, there, c1, c2)
      (rw
        (
          clones (
              copy_range (copy_range dst src from (start - from) off) src end (from + n - end)
                (dst_start + (end - start))),
          al.first,
          al.last,
          len,
          front,
          back,
          c1,
          c2,
          total,
        )
        (ap (λ d. (ok (n - (end - start), end - start), d)) three))

-- A number and its block.
in_block : (x block : ℕ) → x ≡ x / block * block + x % block
in_block x block = sym (div-add-mod' x block)

next_block : (q block : ℕ) → (q + 1) * block ≡ q * block + block
next_block q block = add-mul q 1 block ∙ ap (λ k. q * block + k) (omega arith)

back_up : (e i : ℕ) → i < e → e - i + i ≡ e
back_up e i h = omega arith

-- A range that holds a whole block behind the first boundary is written as if it were copied: the
-- parts in front of the blocks and behind them are copied, the blocks are cloned.
pub clone-copy_range :
    (clone_range : CloneRange) (dst src : File) (from n off block : ℕ)
    → Clones clone_range block
    → 0 < block
    → from % block ≡ off % block
    → from / block + 1 < (from + n) / block
    → from + n ≤ src.size
    → from + n + off + n < 2 ^ 62
    → (len : ℕ) × (0 < len)
      × (len ≤ n)
      × (clone clone_range dst src from n off block
          ≡ (ok (n - len, len), copy_range dst src from n off))
unfolding align_start align_end
clone-copy_range clone_range dst src from n off block clones pos equal inside fits small =
    let i = from / block + 1 in
    let e = (from + n) / block in
    let j = off / block + 1 in
    let a = in_block from block in
    let b = in_block (from + n) block in
    let c = in_block off block in
    let ra = mod-lt from pos in
    let i_is = next_block (from / block) block in
    let j_is = next_block (off / block) block in
    let up = mul-lt-mul_of_pos_right inside pos in
    let whole : word (from + n) ≡ from + n = omega arith in
    let size : (e - i) * block ≡ e * block - i * block =
      omega (arith, add-mul (e - i) i block, ap (λ k. k * block) (back_up e i inside)) in
    let al : IsAligned from n off block (i * block) (e * block) (j * block) = record {
      first = omega arith;
      last = ap (λ k. k / block * block) whole;
      dst_first = omega arith;
      before = omega arith;
      some_blocks = up;
      after = omega arith;
      same = omega arith;
      small = small;
    } in
    (
      e * block - i * block,
      omega arith,
      omega arith,
      clone-IsAligned clone_range dst src from n off block (i * block) (e * block) (j * block)
          (ground (arith, equal)) al fits
          (λ d. rw (← size) (clones d src i (e - i) j (omega arith) (omega arith))),
    )

-- Cloning whole blocks copies them, the length is that of the segment, which lies within its
-- file, all offsets are below 2 ^ 62, and where cloning is possible there is a whole block behind
-- the first boundary in the range. Then `WriteInto` succeeds, with or without cloning, writes
-- what a plain copy of the range writes, and reports as many bytes as that.
pub write_file_segment-copy_range :
    (clone_range : CloneRange) (dst src : File) (c : IndexChunk) (chunks : List IndexChunk)
    (reflink : Bool) (n off block : ℕ)
    → Clones clone_range block
    → 0 < block
    → size_of_chunks (c ∷ chunks) ≡ n
    → (reflink ≡ true → c.start / block + 1 < (c.start + n) / block)
    → c.start + n ≤ src.size
    → c.start + n + off + n < 2 ^ 62
    → (copied cloned : ℕ) × (copied + cloned ≡ n)
      × (write_file_segment clone_range (some src) (c ∷ chunks) reflink dst off n block
          ≡ (ok (copied, cloned), copy_range dst src c.start n off))
unfolding write_file_segment write_chunks copy
write_file_segment-copy_range clone_range dst src c chunks reflink n off block clones pos size
      inside fits small =
    let all : copied_of src c.start n ≡ n = copied_of-whole src c.start n fits (omega arith) in
    let sized : (n == n) ≡ true = ==_refl n in
    let blocks : (block == 0) ≡ false = ground arith in
    elim (Bool-cases reflink) [
      | inr plain ↦
          (n, 0, omega arith, rw (write_file_segment, size, sized, write_chunks, plain, all) refl)
      | inl cloning ↦ elim (Bool-cases (c.start % block == off % block)) [
        | inr skewed ↦ (
          n,
          0,
          omega arith,
          rw (write_file_segment, size, sized, write_chunks, cloning, blocks, skewed, all) refl,
        )
        | inl aligned ↦
            let (len, some_len, less, done) =
              clone-copy_range clone_range dst src c.start n off block clones pos
                (ground (arith, aligned)) (inside cloning) fits small in
            (
              n - len,
              len,
              omega arith,
              rw (write_file_segment, size, sized, write_chunks, cloning, blocks, aligned) done,
            )
      ]
    ]

-- For a system call that refuses ranges behind the end of the source: cloning a range that starts
-- and ends in the same block, aligned with the target, fails.
pub clone_within_block :
    (clone_range : CloneRange) (dst src : File) (from n off block : ℕ)
    → ((d s : File) (i k j : ℕ) → s.size < i + k → clone_range d s i k j ≡ none)
    → 0 < block
    → from % block ≡ off % block
    → from / block ≡ (from + n) / block
    → src.size < 2 ^ 62
    → from + n ≤ src.size
    → block < 2 ^ 62
    → (clone clone_range dst src from n off block).0 ≡ err clone_failed
unfolding clone align_start align_end
clone_within_block clone_range dst src from n off block refuses pos equal within short fits small =
    let q = from / block in
    let a = in_block from block in
    let up = next_block q block in
    let start : align_start from block ≡ q * block + block = omega arith in
    let whole : word (from + n) ≡ from + n = omega arith in
    let end : align_end from n block ≡ q * block =
      ap (λ k. k / block * block) whole ∙ ap (λ k. k * block) (sym within) in
    let len : minus (q * block) (q * block + block) ≡ 2 ^ 64 - block = omega arith in
    let same : (from % block == off % block) ≡ true = ground (arith, equal) in
    rw (clone, same, start, end, len)
      (rw (refuses _ src (q * block + block) (2 ^ 64 - block) (align_start off block) (omega arith))
        refl)
