-- ===== src/ExternalSort/Slices.antt =====
-- Parts of the record array of Lab6/main.c under a write to one of them.
use mathlib.Core.List.{Perm}
use mathlib.Core.List.Perm
use osisp_labs.Common.{
  ℕ, zero, suc, ◌+◌, ◌*◌, ◌-◌, ◌≤◌, ◌≡◌, ◌<◌, Bool, ◌≢◌, refl, ap, ◌∙◌, sym, subst, List, [], ◌∷◌,
  ◌++◌, arith, length, length-append, take, drop, take-append-drop, take-append, drop-append,
  length-take, length-drop,
}
use native.Mathlib.Decide.{dec_lt}
use osisp_labs.ExternalSort.{Index, slice, splice}
use osisp_labs.ExternalSort.Order.{IsSorted}
use osisp_labs.ExternalSort.Rounds.{HasSortedBlocks, drop-drop, drop-append_ge}

module _ {A : Type 0} where
  take-take_append :
      (m p : ℕ) (a z : List A) → m ≤ p → p ≤ length a → take m (take p a ++ z) ≡ take m a
  take-take_append zero p a z h k = refl
  take-take_append (suc m) zero a z h k = absurd (omega arith)
  take-take_append (suc m) (suc p) [] z h k = absurd (omega arith)
  take-take_append (suc m) (suc p) (x ∷ a) z h k =
      ap (◌∷◌ x) (take-take_append m p a z (omega arith) (omega arith))

  slice_before :
      (q m p : ℕ) (a z : List A)
      → q + m ≤ p
      → p ≤ length a
      → slice (take p a ++ z) q m ≡ slice a q m
  slice_before zero m p a z h k = take-take_append m p a z (omega arith) k
  slice_before (suc q) m zero a z h k = absurd (omega arith)
  slice_before (suc q) m (suc p) [] z h k = absurd (omega arith)
  slice_before (suc q) m (suc p) (x ∷ a) z h k = slice_before q m p a z (omega arith) (omega arith)

  pub slice_behind :
      (q p n : ℕ) (a xs : List A)
      → p + n ≤ q
      → p + n ≤ length a
      → length xs ≡ n
      → drop q (splice a p n xs) ≡ drop q a
  slice_behind q p n a xs h k e =
      drop-append_ge (take p a) (xs ++ drop (p + n) a) q (q - p) (omega (arith, length-take p a))
      ∙ drop-append_ge xs (drop (p + n) a) (q - p) (q - (p + n)) (omega arith)
      ∙ drop-drop (q - (p + n)) (p + n) q a (omega arith)

  pub slice-splice_self :
      (p n : ℕ) (a xs : List A)
      → p + n ≤ length a
      → length xs ≡ n
      → slice (splice a p n xs) p n ≡ xs
  slice-splice_self p n a xs k e =
      ap (take n) (drop-append (take p a) (xs ++ drop (p + n) a) p (omega (arith, length-take p a)))
      ∙ take-append xs (drop (p + n) a) n (omega arith)

  -- A write to one block leaves the other blocks alone.
  pub slice-splice_ne :
      (b c size : ℕ) (a xs : List A)
      → b ≢ c
      → b * size + size ≤ length a
      → length xs ≡ size
      → slice (splice a (b * size) size xs) (c * size) size ≡ slice a (c * size) size
  slice-splice_ne b c size a xs ne k e = elim (dec_lt c b) [
    | yes below ↦
        slice_before (c * size) size (b * size) a (xs ++ drop (b * size + size) a) (grind arith)
          (omega arith)
    | no above ↦ ap (take size) (slice_behind (c * size) (b * size) size a xs (grind arith) k e)
  ]

  pub length-splice :
      (p n : ℕ) (a xs : List A)
      → p + n ≤ length a
      → length xs ≡ n
      → length (splice a p n xs) ≡ length a
  length-splice p n a xs k e = omega (
    arith,
    length-append (take p a) (xs ++ drop (p + n) a),
    length-append xs (drop (p + n) a),
    length-take p a,
    length-drop (p + n) a,
  )

  pub length-slice : (p n : ℕ) (a : List A) → p + n ≤ length a → length (slice a p n) ≡ n
  length-slice p n a k = omega (arith, length-take n (drop p a), length-drop p a)

  -- A write of the same records in another order keeps the records.
  pub splice-perm : (p n : ℕ) (a xs : List A) → Perm xs (slice a p n) → Perm (splice a p n xs) a
  splice-perm p n a xs h =
      Perm.trans (Perm.append (Perm.refl (take p a)) (Perm.append h (Perm.refl (drop (p + n) a)))) (
        subst (λ z. Perm z a)
          (sym (take-append-drop p a)
            ∙ ap (◌++◌ (take p a)) (
                sym (take-append-drop n (drop p a))
                ∙ ap (◌++◌ (slice a p n)) (drop-drop n p (p + n) a refl)))
          (Perm.refl a))

module _ {Mark : Type 0} (lt : Mark → Mark → Bool) (size : ℕ) where
  -- A list whose slices ascend is made of ascending blocks.
  pub HasSortedBlocks-slices :
      (n o : ℕ) (a : List (Index Mark))
      → (o + n) * size ≤ length a
      → ((b : ℕ) → o ≤ b → b < o + n → IsSorted lt (slice a (b * size) size))
      → HasSortedBlocks lt size n (drop (o * size) a)
  HasSortedBlocks-slices zero o a h f = tt
  HasSortedBlocks-slices (suc n) o a h f = (
    omega (arith, length-drop (o * size) a),
    f o (omega arith) (omega arith),
    subst (HasSortedBlocks lt size n)
        (sym (drop-drop size (o * size) ((o + 1) * size) a (omega arith)))
        (HasSortedBlocks-slices n (o + 1) a (omega arith)
          (λ b p r. f b (omega arith) (omega arith))),
  )
