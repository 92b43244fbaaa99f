-- ===== src/ExternalSort/Order.antt =====
-- What the sort uses of the comparison of marks and of `qsort`, and when a list ascends.
use osisp_labs.Common.{◌≡◌, Bool, true, false, List, [], ◌∷◌, ◌++◌}
use mathlib.Core.List.{Perm}
use osisp_labs.ExternalSort.{Index}

-- `<` of doubles that are no NaN: a strict weak order.
pub record IsOrder {Mark : Type 0} (lt : Mark → Mark → Bool) : Type 0 where
  pub asymm : (a b : Mark) → lt a b ≡ true → lt b a ≡ false
  pub not_lt_trans : (a b c : Mark) → lt a b ≡ false → lt b c ≡ false → lt a c ≡ false

module _ {A : Type 0} where
  abbrev pub All : (A → Type 0) → List A → Type 0
  All P [] = Unit
  All P (x ∷ xs) = P x × All P xs

  pub All-append : (P : A → Type 0) (xs ys : List A) → All P xs → All P ys → All P (xs ++ ys)
  All-append P [] ys hx hy = hy
  All-append P (x ∷ xs) ys hx hy = (hx.0, All-append P xs ys hx.1 hy)

  pub All-map : (P Q : A → Type 0) → ((a : A) → P a → Q a) → (xs : List A) → All P xs → All Q xs
  All-map P Q f [] h = tt
  All-map P Q f (x ∷ xs) h = (f x h.0, All-map P Q f xs h.1)

module _ {Mark : Type 0} (lt : Mark → Mark → Bool) where
  -- `b` is not before `a`.
  abbrev pub NotBefore : Index Mark → Index Mark → Type 0
  NotBefore a b = lt b.time_mark a.time_mark ≡ false

  -- No record has a smaller mark than one that stands before it.
  abbrev pub IsSorted : List (Index Mark) → Type 0
  IsSorted [] = Unit
  IsSorted (x ∷ xs) = All (NotBefore x) xs × IsSorted xs

  -- What the C standard says of `qsort` with `compare_index_s`.
  pub record IsQsort (qsort : List (Index Mark) → List (Index Mark)) : Type 0 where
    pub sorted : (a : List (Index Mark)) → IsSorted (qsort a)
    pub perm : (a : List (Index Mark)) → Perm (qsort a) a
