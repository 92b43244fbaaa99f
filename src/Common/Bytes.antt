-- ===== src/Common/Bytes.antt =====
-- Numbers in a file: the bytes of a fixed width, the lowest first.
use Prim.Native.Nat.{ℕ, zero, suc, ◌+◌, ◌*◌, ◌/◌, ◌%◌}
use mathlib.Core.Path.{◌≡◌, refl, ap}
use mathlib.Core.List.{List, [], ◌∷◌}
use native.Mathlib.Omega.{arith}
use osisp_labs.Common.Lists.{length}

-- The value in so many bytes of memory.
unfoldable pub bytes_of : ℕ → ℕ → List ℕ
bytes_of zero n = []
bytes_of (suc width) n = n % 256 ∷ bytes_of width (n / 256)

unfoldable pub number_of : List ℕ → ℕ
number_of [] = 0
number_of (b ∷ bs) = b + 256 * number_of bs

-- A number that has no more bytes.
abbrev pub Fits : ℕ → ℕ → Type 0
Fits zero n = n ≡ 0
Fits (suc width) n = Fits width (n / 256)

pub number_of-bytes_of : (width n : ℕ) → Fits width n → number_of (bytes_of width n) ≡ n
unfolding bytes_of number_of
number_of-bytes_of zero n h = omega (arith, h)
number_of-bytes_of (suc width) n h = omega (arith, number_of-bytes_of width (n / 256) h)

pub length-bytes_of : (width n : ℕ) → length (bytes_of width n) ≡ width
unfolding bytes_of
length-bytes_of zero n = refl
length-bytes_of (suc width) n = ap suc (length-bytes_of width (n / 256))
