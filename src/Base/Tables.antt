-- ===== src/Base/Tables.antt =====
-- Facts over a small range of numbers, checked at each of them by evaluation.
use Prim.Native.Nat.{ℕ, zero, suc, ◌<◌}
use mathlib.Core.Path.{◌≡◌}
use mathlib.Core.Bool.{Bool, true, ◌&&◌}
use native.Mathlib.Omega.{arith}
use geoipdns.Base.Tests.{◌==◌}

unfoldable pub equal_below : (ℕ → ℕ) → (ℕ → ℕ) → ℕ → Bool
equal_below f g zero = true
equal_below f g (suc n) = (f n == g n) && equal_below f g n

pub equal_below_sound :
    (f g : ℕ → ℕ) (n : ℕ) → equal_below f g n ≡ true → (i : ℕ) → i < n → f i ≡ g i
unfolding equal_below
equal_below_sound f g zero e i h = absurd (omega arith)
equal_below_sound f g (suc n) e i h = ground (arith, equal_below_sound f g n (ground arith) i)
