-- ===== src/Base/Int.antt =====
-- Signed integers over the native numbers: `negsuc n` is -(n + 1).
use Prim.Native.Nat.{ℕ, ◌-◌, ◌%◌, ◌^◌, ◌<◌}
use mathlib.Core.Path.{◌≡◌, refl}
use mathlib.Core.Bool.{Bool, true, false}
use native.Mathlib.Omega.{arith}
use gsdm.Base.Tests.{ltb, lt→ltb, if◌then◌else◌}

pub data ℤ : Type 0 where
  pos : ℕ → ℤ
  negsuc : ℕ → ℤ

-- The conversion to `int`
unfoldable pub int32 : ℕ → ℤ
int32 n =
    let word = n % 2 ^ 32 in if ltb word (2 ^ 31) then pos word else negsuc (2 ^ 32 - 1 - word)

pub int32_small : (n : ℕ) → n < 2 ^ 31 → int32 n ≡ pos n
unfolding int32
int32_small n h =
    let same : n % 2 ^ 32 ≡ n = omega (arith, h) in rw (same, lt→ltb n (2 ^ 31) h) refl

-- `a > b`
pub is_greater : ℤ → ℤ → Bool
is_greater (pos a) (pos b) = ltb b a
is_greater (pos a) (negsuc b) = true
is_greater (negsuc a) (pos b) = false
is_greater (negsuc a) (negsuc b) = ltb a b
