-- ===== src/Base/Table.antt =====
-- A property of the numbers below a bound, checked by running through them.
use Prim.Native.Nat.{ℕ, zero, suc, ◌<◌}
use mathlib.Core.Path.{◌≡◌}
use mathlib.Core.Bool.{Bool, true, ◌&&◌}
use native.Mathlib.Omega.{arith}

unfoldable pub holds_to : (ℕ → Bool) → ℕ → Bool
holds_to test zero = true
holds_to test (suc n) = holds_to test n && test n

pub holds_at : (test : ℕ → Bool) (n i : ℕ) → holds_to test n ≡ true → i < n → test i ≡ true
unfolding holds_to
holds_at test zero i h l = elim l [ ]
holds_at test (suc n) i h l = ground (arith, holds_at test n i)
