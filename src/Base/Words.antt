-- ===== src/Base/Words.antt =====
-- Additions on the machine's integers.
use Prim.Native.Nat.{ℕ, ◌+◌, ◌%◌, ◌^◌, ◌<◌, ◌≤◌}
use mathlib.Core.Bool.{Bool, false}
use mathlib.Core.Option.{Option, none, some}
use mathlib.Core.Path.{◌≡◌}
use native.Mathlib.Omega.{arith}
use jiraleaks.Base.Tests.{ltb, if◌then◌else◌}

-- `a + b` on `u64`. Above the range a build with overflow checks panics, which is `none`, and a
-- build without them, as the release profile makes it, wraps around.
unfoldable pub add_u64 : (overflow_checks : Bool) → ℕ → ℕ → Option ℕ
add_u64 overflow_checks a b =
    if ltb (a + b) (2 ^ 64)
    then some (a + b)
    else if overflow_checks
    then none
    else some ((a + b) % 2 ^ 64)

pub add_u64-in_range :
    (overflow_checks : Bool) (a b : ℕ) → a + b < 2 ^ 64 → add_u64 overflow_checks a b ≡ some (a + b)
unfolding add_u64
add_u64-in_range overflow_checks a b h = ground arith

pub add_u64-unchecked : (a b : ℕ) → add_u64 false a b ≡ some ((a + b) % 2 ^ 64)
unfolding add_u64
add_u64-unchecked a b = ground arith

-- Only a sum above the range panics.
pub add_u64-none :
    (overflow_checks : Bool) (a b : ℕ) → add_u64 overflow_checks a b ≡ none → 2 ^ 64 ≤ a + b
unfolding add_u64
add_u64-none overflow_checks a b h = ground arith
