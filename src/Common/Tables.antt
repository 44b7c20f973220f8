-- ===== src/Common/Tables.antt =====
-- Statements about every number below a bound, checked by evaluation.
use Prim.Native.Nat.{ℕ, zero, suc, ◌<◌}
use mathlib.Core.Path.{◌≡◌}
use mathlib.Core.Bool.{Bool, true, false}
use native.Mathlib.Omega.{arith}
use desync.Common.Tests.{if◌then◌else◌}

-- Whether `test` is true at all numbers below the bound.
unfoldable pub holds_below : (ℕ → Bool) → ℕ → Bool
holds_below test zero = true
holds_below test (suc last) =
    let before = holds_below test last in if test last then before else false

pub holds_below_sound :
    (test : ℕ → Bool) (bound : ℕ) {k : ℕ}
    → holds_below test bound ≡ true
    → k < bound
    → test k ≡ true
unfolding holds_below
holds_below_sound test zero {k = k} held lt = absurd (omega arith)
holds_below_sound test (suc last) {k = k} held lt =
    ground (arith, holds_below_sound test last {k = k})
