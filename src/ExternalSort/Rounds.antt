-- ===== src/ExternalSort/Rounds.antt =====
-- The rounds of merges of Lab6/main.c: what one round does, and when the last one leaves the
-- records sorted.
use mathlib.Core.List.{Perm, append_assoc}
use mathlib.Core.List.Perm
use osisp_labs.Common.{
  ℕ, zero, suc, ◌+◌, ◌*◌, ◌-◌, ◌≤◌, ◌≡◌, refl, ap, ◌∙◌, sym, subst, Bool, List, [], ◌∷◌, ◌++◌,
  arith, length, length-append, take, drop, take-append-drop, take-append, drop-append, length-take,
  length-drop,
}
use osisp_labs.ExternalSort.{Index, merge_loop, merge, merge_pairs}
use osisp_labs.ExternalSort.Order.{IsOrder, IsSorted}
use osisp_labs.ExternalSort.Merge.{
  merge_loop-perm, length-merge_loop, merge_loop-IsSorted, merge_adjacent,
}

module _ {A : Type 0} where
  drop-nil : (m : ℕ) → drop {A = A} m [] ≡ []
  drop-nil zero = refl
  drop-nil (suc m) = refl

  pub drop-drop : (m n k : ℕ) (xs : List A) → k ≡ n + m → drop m (drop n xs) ≡ drop k xs
  drop-drop m zero k xs e = ap (λ j. drop j xs) (omega arith)
  drop-drop m (suc n) zero xs e = absurd (omega arith)
  drop-drop m (suc n) (suc k) [] e = drop-nil m
  drop-drop m (suc n) (suc k) (x ∷ xs) e = drop-drop m n k xs (omega arith)

  -- Behind the first part of a list.
  pub drop-append_ge :
      (xs ys : List A) (m k : ℕ) → m ≡ length xs + k → drop m (xs ++ ys) ≡ drop k ys
  drop-append_ge [] ys m k e = ap (λ j. drop j ys) (omega arith)
  drop-append_ge (x ∷ xs) ys zero k e = absurd (omega arith)
  drop-append_ge (x ∷ xs) ys (suc m) k e = drop-append_ge xs ys m k (omega arith)

  pub take_all : (xs : List A) (n : ℕ) → n ≡ length xs → take n xs ≡ xs
  take_all [] zero e = refl
  take_all [] (suc n) e = refl
  take_all (x ∷ xs) zero e = absurd (omega arith)
  take_all (x ∷ xs) (suc n) e = ap (◌∷◌ x) (take_all xs n (omega arith))

  -- Two runs and what follows make up the list.
  two_runs : (n : ℕ) (a : List A) → a ≡ take n a ++ (take n (drop n a) ++ drop n (drop n a))
  two_runs n a =
      sym (take-append-drop n a) ∙ ap (◌++◌ (take n a)) (sym (take-append-drop n (drop n a)))

module _ {Mark : Type 0} (lt : Mark → Mark → Bool) where
  -- `n` blocks of `size` records from the start on, each of them ascending
  abbrev pub HasSortedBlocks : ℕ → ℕ → List (Index Mark) → Type 0
  HasSortedBlocks size zero a = Unit
  HasSortedBlocks size (suc n) a =
      (size ≤ length a) × IsSorted lt (take size a) × HasSortedBlocks size n (drop size a)

  -- What a round of `n` merges makes of the records from its first block on.
  pub round : ℕ → ℕ → List (Index Mark) → List (Index Mark)
  round size zero a = a
  round size (suc n) a =
      merge_loop lt (take size a) (take size (drop size a))
      ++ round size n (drop size (drop size a))

  -- The two runs at the head of `a`, merged.
  abbrev head_merged : ℕ → List (Index Mark) → List (Index Mark)
  head_merged size a = merge_loop lt (take size a) (take size (drop size a))

  length-head_merged :
      (size : ℕ) (a : List (Index Mark))
      → 2 * size ≤ length a
      → length (head_merged size a) ≡ size * 2
  length-head_merged size a h = omega (
    arith,
    length-merge_loop lt (take size a) (take size (drop size a)),
    length-take size a,
    length-take size (drop size a),
    length-drop size a,
  )

  -- The loop over the pairs does one round, and touches nothing before the first block.
  pub merge_pairs-round :
      (size n i : ℕ) (before a : List (Index Mark))
      → i * 2 * size ≡ length before
      → 2 * n * size ≤ length a
      → merge_pairs lt size (before ++ a) i n ≡ before ++ round size n a
  unfolding merge_pairs round
  merge_pairs-round size zero i before a e h = refl
  merge_pairs-round size (suc n) i before a e h =
      ap
        (λ b.
          merge_pairs lt size (merge lt (before ++ b) (i * 2 * size) ((i * 2 + 1) * size) size)
            (i + 1) n)
        (two_runs size a)
      ∙ ap (λ b. merge_pairs lt size b (i + 1) n)
          (merge_adjacent lt before (take size a) (take size (drop size a)) rest (i * 2 * size)
              ((i * 2 + 1) * size) size e (omega arith) (omega (arith, length-take size a))
              (omega (arith, length-take size (drop size a), length-drop size a))
            ∙ sym (append_assoc before (head_merged size a) rest))
      ∙ merge_pairs-round size n (i + 1) (before ++ head_merged size a) rest
          (omega (
            arith,
            length-append before (head_merged size a),
            length-head_merged size a (omega arith),
          ))
          (omega (arith, length-drop size (drop size a), length-drop size a))
      ∙ append_assoc before (head_merged size a) (round size n rest)
    where
      rest : List (Index Mark)
      rest = drop size (drop size a)

  pub round-perm : (size n : ℕ) (a : List (Index Mark)) → Perm (round size n a) a
  unfolding round
  round-perm size zero a = Perm.refl a
  round-perm size (suc n) a =
      Perm.trans
        (Perm.append (merge_loop-perm lt (take size a) (take size (drop size a)))
          (round-perm size n (drop size (drop size a))))
        (subst (λ b. Perm b a)
          (two_runs size a
            ∙ sym (append_assoc (take size a) (take size (drop size a)) (drop size (drop size a))))
          (Perm.refl a))

  pub length-round :
      (size n : ℕ) (a : List (Index Mark))
      → 2 * n * size ≤ length a
      → length (round size n a) ≡ length a
  unfolding round
  length-round size zero a h = refl
  length-round size (suc n) a h = omega (
    arith,
    length-append (head_merged size a) (round size n (drop size (drop size a))),
    length-head_merged size a (omega arith),
    length-round size n (drop size (drop size a))
        (omega (arith, length-drop size (drop size a), length-drop size a)),
    length-drop size (drop size a),
    length-drop size a,
  )

  -- Records behind the merged pairs stay.
  pub round-behind :
      (size n m : ℕ) (a : List (Index Mark))
      → 2 * n * size ≤ length a
      → 2 * n * size ≤ m
      → drop m (round size n a) ≡ drop m a
  unfolding round
  round-behind size zero m a h p = refl
  round-behind size (suc n) m a h p =
      drop-append_ge (head_merged size a) (round size n rest) m (m - size * 2)
        (omega (arith, length-head_merged size a (omega arith)))
      ∙ round-behind size n (m - size * 2) rest
          (omega (arith, length-drop size (drop size a), length-drop size a)) (omega arith)
      ∙ drop-drop (m - size * 2) size (m - size) (drop size a) (omega arith)
      ∙ drop-drop (m - size) size m a (omega arith)
    where
      rest : List (Index Mark)
      rest = drop size (drop size a)

  pub length-HasSortedBlocks :
      (size n : ℕ) (a : List (Index Mark)) → HasSortedBlocks size n a → n * size ≤ length a
  length-HasSortedBlocks size zero a h = omega arith
  length-HasSortedBlocks size (suc n) a h =
      omega (arith, length-HasSortedBlocks size n (drop size a) h.2, length-drop size a)

  -- A round makes ascending blocks of twice the size.
  pub round-HasSortedBlocks :
      IsOrder lt
      → (size n k : ℕ) (a : List (Index Mark)) → 2 * n ≤ k
      → HasSortedBlocks size k a
      → HasSortedBlocks (size * 2) n (round size n a)
  unfolding round
  round-HasSortedBlocks o size zero k a h b = tt
  round-HasSortedBlocks o size (suc n) zero a h b = absurd (omega arith)
  round-HasSortedBlocks o size (suc n) (suc zero) a h b = absurd (omega arith)
  round-HasSortedBlocks o size (suc n) (suc (suc k)) a h (p, sorted_l, (q, sorted_r, b)) =
      let len : length (head_merged size a) ≡ size * 2 =
        length-head_merged size a (omega (arith, length-drop size a)) in
      (
        omega (
          arith,
          len,
          length-append (head_merged size a) (round size n (drop size (drop size a))),
        ),
        rw
            (take-append (head_merged size a) (round size n (drop size (drop size a))) (size * 2)
              (omega (arith, len)))
            (merge_loop-IsSorted lt o (take size a) (take size (drop size a)) sorted_l sorted_r),
        rw
            (drop-append (head_merged size a) (round size n (drop size (drop size a))) (size * 2)
              (omega (arith, len)))
            (round-HasSortedBlocks o size n k (drop size (drop size a)) (omega arith) b),
      )
