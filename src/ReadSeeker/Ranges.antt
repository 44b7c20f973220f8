-- ===== src/ReadSeeker/Ranges.antt =====
-- About parts of the bytes of a range.
use desync.Common.{
  ℕ, zero, suc, ◌+◌, ◌-◌, ◌≤◌, ◌≡◌, refl, ap, ◌∙◌, [], ◌∷◌, ◌++◌, take, drop, min, arith,
}
use desync.Files.{bytes_from}

pub range_cong : (at : ℕ → ℕ) (n m o p : ℕ) → n ≡ m → o ≡ p → bytes_from at n o ≡ bytes_from at m p
range_cong at n m o p e h = cc

pub drop-bytes_from :
    (at : ℕ → ℕ) (k n off : ℕ)
    → k ≤ n
    → drop k (bytes_from at n off) ≡ bytes_from at (n - k) (off + k)
unfolding bytes_from
drop-bytes_from at zero n off h = range_cong at n (n - 0) off (off + 0) (omega arith) (omega arith)
drop-bytes_from at (suc k) zero off h = absurd (omega arith)
drop-bytes_from at (suc k) (suc n) off h =
    drop-bytes_from at k n (off + 1) (omega arith)
    ∙ range_cong at (n - k) (suc n - suc k) (off + 1 + k) (off + suc k) (omega arith) (omega arith)

pub take-bytes_from :
    (at : ℕ → ℕ) (k n off : ℕ) → take k (bytes_from at n off) ≡ bytes_from at (min k n) off
unfolding bytes_from
take-bytes_from at zero n off = range_cong at 0 (min 0 n) off off (omega arith) refl
take-bytes_from at (suc k) zero off = range_cong at 0 (min (suc k) 0) off off (omega arith) refl
take-bytes_from at (suc k) (suc n) off =
    ap (λ l. at off ∷ l) (take-bytes_from at k n (off + 1))
    ∙ range_cong at (suc (min k n)) (min (suc k) (suc n)) off off (omega arith) refl

pub no_bytes : (at : ℕ → ℕ) (n off : ℕ) → n ≡ 0 → bytes_from at n off ≡ []
unfolding bytes_from
no_bytes at zero off e = refl
no_bytes at (suc n) off e = absurd (omega arith)

pub append-bytes_from :
    (at : ℕ → ℕ) (a b off : ℕ)
    → bytes_from at a off ++ bytes_from at b (off + a) ≡ bytes_from at (a + b) off
unfolding bytes_from
append-bytes_from at zero b off = range_cong at b (0 + b) (off + 0) off (omega arith) (omega arith)
append-bytes_from at (suc a) b off =
    ap (λ l. at off ∷ bytes_from at a (off + 1) ++ l)
      (range_cong at b b (off + suc a) (off + 1 + a) refl (omega arith))
    ∙ ap (λ l. at off ∷ l) (append-bytes_from at a b (off + 1))
    ∙ range_cong at (suc (a + b)) (suc a + b) off off (omega arith) refl
