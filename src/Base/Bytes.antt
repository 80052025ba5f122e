-- ===== src/Base/Bytes.antt =====
-- Tests that are run on every number of a range, such as the bytes.
use Prim.Native.Nat.{ℕ, zero, suc, ◌+◌, ◌<◌}
use mathlib.Core.Path.{◌≡◌, refl, ap, ◌∙◌}
use mathlib.Core.Bool.{Bool, true, false}
use native.Mathlib.Omega.{arith}
use gsdm.Base.Tests.{if◌then◌else◌}

-- The test holds at `count` numbers from `start` on.
unfoldable pub holds_from : ℕ → ℕ → (ℕ → Bool) → Bool
holds_from start zero test = true
holds_from start (suc count) test =
    let later = holds_from (suc start) count test in if test start then later else false

pub first_holds : (a b : Bool) → (if a then b else false) ≡ true → (a ≡ true) × (b ≡ true)
first_holds true b run = (refl, run)
first_holds false b run = cc

holds_within :
    (start count : ℕ) (test : ℕ → Bool) (k : ℕ)
    → holds_from start count test ≡ true
    → k < count
    → test (start + k) ≡ true
unfolding holds_from
holds_within start zero test k run lt = absurd (omega arith)
holds_within start (suc count) test zero run lt =
    ap test (omega arith) ∙ (first_holds (test start) _ run).0
holds_within start (suc count) test (suc k) run lt =
    ap test (omega arith)
    ∙ holds_within (suc start) count test k (first_holds (test start) _ run).1 (omega arith)

pub holds_at :
    (count : ℕ) (test : ℕ → Bool) (k : ℕ)
    → holds_from 0 count test ≡ true
    → k < count
    → test k ≡ true
holds_at count test k run lt = ap test (omega arith) ∙ holds_within 0 count test k run lt
