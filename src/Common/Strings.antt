-- ===== src/Common/Strings.antt =====
-- Characters in a string.
use Prim.Native.Nat.{ℕ}
use mathlib.Core.Path.{◌≡◌}
use mathlib.Core.Logic.{◌≢◌, inl, inr}
use mathlib.Core.Bool.{Bool, true, false}
use mathlib.Core.List.{List, [], ◌∷◌}
use native.Mathlib.Omega.{arith}
use osisp_labs.Common.Tests.{◌==◌, if◌then◌else◌, Bool-cases}

-- Whether a character is in a string.
unfoldable pub has : ℕ → List ℕ → Bool
has c [] = false
has c (a ∷ s) = if a == c then true else has c s

pub has_inv : (c a : ℕ) (s : List ℕ) → has c (a ∷ s) ≡ false → (a ≢ c) × (has c s ≡ false)
unfolding has
has_inv c a s h = elim (Bool-cases (a == c)) [
  | inl e ↦ ground (arith, h, e)
  | inr e ↦ ((λ q. ground (arith, q, e)), ground (arith, h, e))
]
