-- ===== src/Files.antt =====
-- Open files, as the standard library reads and writes them. Reads and writes of an open file do not
-- fail, except where the file ends.
use desync.Common.{
  ℕ, zero, suc, ◌+◌, ◌-◌, ◌<◌, ◌≡◌, fun_ext, List, [], ◌∷◌, length, ltb, leb, ◌==◌, Bool, Option,
  none, some, if◌then◌else◌, ◌&&◌, ◌||◌, arith,
}

-- Behind its end a file has no bytes, whatever `at` says there.
pub record File : Type 0 where
  pub size : ℕ
  pub at : ℕ → ℕ

-- The bytes of a range.
unfoldable pub bytes_from : (ℕ → ℕ) → ℕ → ℕ → List ℕ
bytes_from at zero off = []
bytes_from at (suc n) off = at off ∷ bytes_from at n (off + 1)

-- `ReadAt` into a buffer of `n` bytes, an error where the file ends before.
unfoldable pub read_at : File → ℕ → ℕ → Option (List ℕ)
read_at f n off = if n == 0 || leb (off + n) f.size then some (bytes_from f.at n off) else none

unfoldable pub get_or : ℕ → List ℕ → ℕ → ℕ
get_or d [] i = d
get_or d (b ∷ bs) zero = b
get_or d (b ∷ bs) (suc i) = get_or d bs i

abbrev grown : ℕ → ℕ → ℕ → ℕ
grown size off n = if n == 0 then size else if ltb size (off + n) then off + n else size

abbrev pub between : ℕ → ℕ → ℕ → Bool
between off n i = leb off i && ltb i (off + n)

unfoldable pub write_at : File → List ℕ → ℕ → File
write_at f bs off = record {
  size = grown f.size off (length bs);
  at = λ i. if between off (length bs) i then get_or 0 bs (i - off) else f.at i;
}

-- `n` bytes of a file, written into another one.
unfoldable pub copy_range : File → File → ℕ → ℕ → ℕ → File
copy_range dst src from n off = record {
  size = grown dst.size off n;
  at = λ i. if between off n i then src.at (from + (i - off)) else dst.at i;
}

pub File-path : {f g : File} → f.size ≡ g.size → ((i : ℕ) → f.at i ≡ g.at i) → f ≡ g
File-path {f} {g} hs ha = λ i. record { size = hs i; at = fun_ext ha i }

-- Three adjacent ranges, the middle one last.
pub copy_range-three :
    (dst src : File) (from off n m k : ℕ)
    → 0 < n
    → 0 < m
    → copy_range
        (copy_range (copy_range dst src from n off) src (from + n + m) k (off + n + m))
        src
        (from + n)
        m
        (off + n)
      ≡ copy_range dst src from (n + m + k) off
unfolding copy_range
copy_range-three dst src from off n m k hn hm = File-path (ground arith) (λ i. ground arith)
