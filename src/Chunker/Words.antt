-- ===== src/Chunker/Words.antt =====
-- 32-bit words: the operations of chunker.go on a uint32, and its precomputed constants.
use desync.Common.{ℕ, zero, suc, ◌+◌, ◌-◌, ◌*◌, ◌/◌, ◌%◌, ◌^◌, Bool, ◌&&◌, ltb, ◌==◌, if◌then◌else◌}

abbrev pub word : ℕ
word = 2 ^ 32

-- `bits.RotateLeft32`
unfoldable pub rotate_left32 : ℕ → ℕ → ℕ
rotate_left32 x k = x * 2 ^ (k % 32) % word + x / 2 ^ (32 - k % 32)

unfoldable pub sub32 : ℕ → ℕ → ℕ
sub32 a b = (a + word - b % word) % word

unfoldable pub mul32 : ℕ → ℕ → ℕ
mul32 a b = a * b % word

-- `x *= 2 - d*x`
unfoldable pub newton_step : ℕ → ℕ → ℕ
unfolding sub32 mul32
newton_step d x = mul32 x (sub32 2 (mul32 d x))

unfoldable pub mod_inverse32 : ℕ → ℕ
mod_inverse32 d = newton_step d (newton_step d (newton_step d (newton_step d (newton_step d d))))

-- `bits.TrailingZeros32`, with the 32 that it gives for 0.
unfoldable pub trailing_zeros_below : ℕ → ℕ → ℕ
trailing_zeros_below zero x = 0
trailing_zeros_below (suc n) x =
    let more = trailing_zeros_below n (x / 2) in if x % 2 == 0 then suc more else 0

unfoldable pub trailing_zeros32 : ℕ → ℕ
trailing_zeros32 x = trailing_zeros_below 32 x

-- The constants that `NewChunker` computes from the discriminator.
pub record Divider : Type 0 where
  pub inverse_odd : ℕ
  pub thresh_odd : ℕ
  pub disc_minus1 : ℕ
  pub trail_shift : ℕ
  pub trail_mask : ℕ

unfoldable pub new_divider : ℕ → Divider
new_divider disc =
    let trail_shift : ℕ = trailing_zeros32 disc in
    let odd_part : ℕ = disc / 2 ^ trail_shift in
    record {
      inverse_odd = mod_inverse32 odd_part;
      thresh_odd = (word + odd_part - 1) / odd_part % word;
      disc_minus1 = (disc + word - 1) % word;
      trail_shift = trail_shift;
      trail_mask = (2 ^ trail_shift + word - 1) % word;
    }

-- The test of the loop. The mask is 2 ^ trail_shift - 1, so `adjusted & trailMask` is a remainder.
unfoldable pub is_boundary : Divider → ℕ → Bool
unfolding sub32 mul32
is_boundary v h_value =
    let adjusted : ℕ = sub32 h_value v.disc_minus1 in
    adjusted % (v.trail_mask + 1) == 0
    && ltb (mul32 (adjusted / 2 ^ v.trail_shift) v.inverse_odd) v.thresh_odd
