-- ===== src/Chunker/Divisibility.antt =====
-- The test for a boundary in the loop of `Next` against `IsBoundary`, at the discriminators where
-- they differ.
use desync.Common.{ℕ, ◌^◌, ◌≡◌, ◌<◌, Bool, true, false, ◌==◌, refl, ==_iff, arith}
use desync.Common.Tables.{holds_below, holds_below_sound}
use desync.Chunker.Words.{Divider, trailing_zeros_below, trailing_zeros32, new_divider, is_boundary}

has_no_threshold : ℕ → Bool
has_no_threshold k = (new_divider (2 ^ k)).thresh_odd == 0

every_has_no_threshold : (k : ℕ) → k < 32 → has_no_threshold k ≡ true
unfolding has_no_threshold new_divider holds_below trailing_zeros32 trailing_zeros_below
every_has_no_threshold k h = holds_below_sound has_no_threshold 32 refl h

without_threshold : (v : Divider) (h : ℕ) → v.thresh_odd ≡ 0 → is_boundary v h ≡ false
unfolding is_boundary
without_threshold v h e = rw (is_boundary, e) (ground arith)

-- If the discriminator is a power of two below 2 ^ 32, the loop finds no boundary at any value of
-- the hash.
pub is_boundary_power_of_two : (k h : ℕ) → k < 32 → is_boundary (new_divider (2 ^ k)) h ≡ false
unfolding has_no_threshold
is_boundary_power_of_two k h lt =
    without_threshold (new_divider (2 ^ k)) h ((==_iff _ _).0 (every_has_no_threshold k lt))
