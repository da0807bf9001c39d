-- ===== src/Base/Bytes.antt =====
-- Facts about every byte, by evaluation over the 256 values.
use Prim.Native.Nat.{ℕ, zero, suc, ◌<◌}
use mathlib.Core.Path.{◌≡◌}
use mathlib.Core.Bool.{Bool, true, false}
use native.Mathlib.Omega.{arith}
use kernix_os.Base.Tests.{if◌then◌else◌}

-- The test succeeds at each value under the bound.
unfoldable pub every_below : ℕ → (ℕ → Bool) → Bool
every_below zero test = true
every_below (suc bound) test =
    let rest = every_below bound test in if test bound then rest else false

pub test_below :
    (bound : ℕ) (test : ℕ → Bool) (value : ℕ)
    → every_below bound test ≡ true
    → value < bound
    → test value ≡ true
unfolding every_below
test_below zero test value done small = absurd (omega arith)
test_below (suc bound) test value done small = ground (arith, test_below bound test value)
