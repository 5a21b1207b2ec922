-- ===== src/Base/Table.antt =====
-- Checking a test at every number below a bound, by evaluation.
use Prim.Native.Nat.{ℕ, zero, suc, ◌<◌}
use mathlib.Core.Path.{◌≡◌}
use mathlib.Core.Bool.{Bool, true, ◌&&◌}
use native.Mathlib.Omega.{arith}

module _ (test : ℕ → Bool) where
  unfoldable pub holds_below : ℕ → Bool
  holds_below zero = true
  holds_below (suc bound) = holds_below bound && test bound

  -- A table that is true has a true entry wherever it is read.
  pub test-holds_below :
      (bound entry : ℕ) → entry < bound → holds_below bound ≡ true → test entry ≡ true
  unfolding holds_below
  test-holds_below (suc bound) entry within full = ground (arith, test-holds_below bound entry)
  test-holds_below zero entry within full = absurd (omega arith)
