-- ===== src/StudentFile/Lines.antt =====
-- The lines of random letters in the records of Lab7/createFile.c.
use mathlib.Core.List.{append_assoc}
use osisp_labs.Common.{
  ℕ, zero, suc, ◌+◌, ◌<◌, ◌≡◌, refl, sym, ap, ◌∙◌, false, some, List, [], ◌∷◌, ◌++◌, map, ◌==◌,
  length, get_or, length-append, arith, has, has_inv,
}
use osisp_labs.StudentFile.{field_string}

-- A string with its end at the start of a field.
field_string-end : (s junk : List ℕ) → has 0 s ≡ false → field_string (s ++ (0 ∷ junk)) ≡ some s
unfolding field_string
field_string-end [] junk h = refl
field_string-end (c ∷ s) junk h =
    let (d, rest) = has_inv 0 c s h in
    let e : (c == 0) ≡ false = ground (arith, d) in rw (e, field_string-end s junk rest) refl

-- The numbers from one on, so many.
abbrev pub range : ℕ → ℕ → List ℕ
range from zero = []
range from (suc n) = from ∷ range (suc from) n

pub length-range : {A : Type 0} (f : ℕ → A) (from n : ℕ) → length (map f (range from n)) ≡ n
length-range f from zero = refl
length-range f from (suc n) = ap suc (length-range f (suc from) n)

-- A line of characters has no end in it.
pub line_ends :
    (f : ℕ → ℕ) (from n : ℕ)
    → ((j : ℕ) → 0 < f j)
    → has 0 (map f (range from n) ++ (10 ∷ [])) ≡ false
unfolding has
line_ends f from zero h = refl
line_ends f from (suc n) h =
    let e : (f from == 0) ≡ false = ground (arith, h from) in rw (e) (line_ends f (suc from) n h)

pub length-line : (f : ℕ → ℕ) (from n : ℕ) → length (map f (range from n) ++ (10 ∷ [])) ≡ n + 1
length-line f from n =
    omega (arith, length-append (map f (range from n)) (10 ∷ []), length-range f from n)

pub field_of :
    (s junk : List ℕ)
    → has 0 (s ++ (10 ∷ [])) ≡ false
    → length s ≡ 30
    → length junk ≡ 48
    → (length (s ++ (10 ∷ 0 ∷ junk)) ≡ 80)
      × (field_string (s ++ (10 ∷ 0 ∷ junk)) ≡ some (s ++ (10 ∷ [])))
field_of s junk h l k = (
  omega (arith, length-append s (10 ∷ 0 ∷ junk), l, k),
  ap field_string (sym (append_assoc s (10 ∷ []) (0 ∷ junk)))
      ∙ field_string-end (s ++ (10 ∷ [])) junk h,
)

pub get_or-range :
    {A : Type 0} (f : ℕ → A) (i m n : ℕ) (d : A)
    → m < n
    → get_or (map f (range i n)) m d ≡ f (i + m)
get_or-range f i m zero d h = absurd (omega (arith, h))
get_or-range f i zero (suc n) d h = ap f (omega arith)
get_or-range f i (suc m) (suc n) d h =
    get_or-range f (suc i) m n d (omega (arith, h)) ∙ ap f (omega arith)
