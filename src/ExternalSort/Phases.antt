-- ===== src/ExternalSort/Phases.antt =====
-- All rounds of merges of Lab6/main.c together: `merge_all` and `lastMerge`.
use mathlib.Core.List.{Perm}
use mathlib.Core.List.Perm
use native.Mathlib.Nat.{two-pow-succ, pow-zero, mul-div_cancel, div-mul-le_self}
use osisp_labs.Common.{
  ℕ, zero, suc, ◌+◌, ◌*◌, ◌/◌, ◌%◌, ◌^◌, ◌≤◌, ◌<◌, ◌≡◌, refl, ap, ◌∙◌, subst, Bool, true,
  Bool-cases, inl, inr, List, [], arith, length, take, drop, ltb,
}
use osisp_labs.ExternalSort.{Index, merge_pairs, merge_rounds, merge_all}
use osisp_labs.ExternalSort.Order.{IsOrder, IsSorted}
use osisp_labs.ExternalSort.Rounds.{
  HasSortedBlocks, round, merge_pairs-round, round-perm, round-behind, round-HasSortedBlocks,
  length-round, length-HasSortedBlocks, take_all,
}

pub pow_pos : (k : ℕ) → 0 < 2 ^ k
pow_pos zero = omega arith
pow_pos (suc k) = omega (arith, two-pow-succ k, pow_pos k)

parts : (b : ℕ) → b ≡ 2 * (b / 2) + b % 2
parts b = omega arith

half_fits : (b size l : ℕ) → b * size ≤ l → 2 * (b / 2) * size ≤ l
half_fits b size l h = omega (arith, ap (λ t. t * size) (parts b))

halves : (b size : ℕ) → b / 2 * (size * 2) ≤ b * size
halves b size = omega (arith, ap (λ t. t * size) (parts b))

halves_pow : (b k size : ℕ) → b ≡ 2 ^ suc k → b / 2 * (size * 2) ≡ b * size
halves_pow b k size e =
    let even : b ≡ 2 * (b / 2) = omega (arith, two-pow-succ k) in
    omega (arith, ap (λ t. t * size) even)

quarter_fits : (b size m : ℕ) → 2 * (b / 2) * size ≤ m → 2 * (b / 2 / 2) * (size * 2) ≤ m
quarter_fits b size m h = omega (arith, ap (λ t. t * size) (parts (b / 2)))

module _ {Mark : Type 0} (lt : Mark → Mark → Bool) where
  first_round :
      (size n : ℕ) (a : List (Index Mark))
      → 2 * n * size ≤ length a
      → merge_pairs lt size a 0 n ≡ round lt size n a
  first_round size n a h = merge_pairs-round lt size n 0 [] a (omega arith) h

  -- Whatever the number of blocks, the rounds keep every record.
  merge_rounds-perm :
      (fuel : ℕ) (a : List (Index Mark)) (b size : ℕ)
      → b * size ≤ length a
      → Perm (merge_rounds lt fuel a b size) a
  unfolding merge_rounds
  merge_rounds-perm zero a b size h = Perm.refl a
  merge_rounds-perm (suc fuel) a b size h = elim (Bool-cases (ltb 1 b)) [
    | inl more ↦
        rw (more, first_round size (b / 2) a (half_fits b size (length a) h))
          (Perm.trans
            (merge_rounds-perm fuel (round lt size (b / 2) a) (b / 2) (size * 2) (
              omega (
                arith,
                length-round lt size (b / 2) a (half_fits b size (length a) h),
                halves b size,
              )))
            (round-perm lt size (b / 2) a))
    | inr done ↦ rw done (Perm.refl a)
  ]

  length-merge_rounds :
      (fuel : ℕ) (a : List (Index Mark)) (b size : ℕ)
      → b * size ≤ length a
      → length (merge_rounds lt fuel a b size) ≡ length a
  unfolding merge_rounds
  length-merge_rounds zero a b size h = refl
  length-merge_rounds (suc fuel) a b size h = elim (Bool-cases (ltb 1 b)) [
    | inl more ↦
        rw (more, first_round size (b / 2) a (half_fits b size (length a) h))
          (length-merge_rounds fuel (round lt size (b / 2) a) (b / 2) (size * 2) (
              omega (
                arith,
                length-round lt size (b / 2) a (half_fits b size (length a) h),
                halves b size,
              ))
            ∙ length-round lt size (b / 2) a (half_fits b size (length a) h))
    | inr done ↦ rw done
  ]

  -- Records behind the first `2 * (b / 2)` blocks stay where they are.
  merge_rounds-behind :
      (fuel : ℕ) (a : List (Index Mark)) (b size m : ℕ)
      → b * size ≤ length a
      → 2 * (b / 2) * size ≤ m
      → drop m (merge_rounds lt fuel a b size) ≡ drop m a
  unfolding merge_rounds
  merge_rounds-behind zero a b size m h p = refl
  merge_rounds-behind (suc fuel) a b size m h p = elim (Bool-cases (ltb 1 b)) [
    | inl more ↦
        rw (more, first_round size (b / 2) a (half_fits b size (length a) h))
          (merge_rounds-behind fuel (round lt size (b / 2) a) (b / 2) (size * 2) m
              (omega (
                arith,
                length-round lt size (b / 2) a (half_fits b size (length a) h),
                halves b size,
              ))
              (quarter_fits b size m p)
            ∙ round-behind lt size (b / 2) m a (half_fits b size (length a) h) p)
    | inr done ↦ rw done
  ]

  -- Of a power of two ascending blocks the rounds make one.
  merge_rounds-HasSortedBlocks :
      IsOrder lt
      → (k fuel : ℕ) (a : List (Index Mark)) (b size : ℕ) → b ≡ 2 ^ k
      → b ≤ fuel
      → HasSortedBlocks lt size b a
      → HasSortedBlocks lt (b * size) 1 (merge_rounds lt fuel a b size)
  unfolding merge_rounds
  merge_rounds-HasSortedBlocks o k zero a b size e f h = absurd (omega (arith, pow_pos k))
  merge_rounds-HasSortedBlocks o zero (suc fuel) a b size e f h =
      let one : b ≡ 1 = omega (arith, pow-zero 2) in
      let h : HasSortedBlocks lt size 1 a = subst (λ n. HasSortedBlocks lt size n a) one h in
      rw one (omega arith, subst (λ n. IsSorted lt (take n a)) (omega arith) h.1, tt)
  merge_rounds-HasSortedBlocks o (suc k) (suc fuel) a b size e f h =
      let more : ltb 1 b ≡ true = ground (arith, two-pow-succ k, pow_pos k) in
      let fits = half_fits b size (length a) (length-HasSortedBlocks lt size b a h) in
      rw (more, first_round size (b / 2) a fits)
        (subst
          (λ s.
            HasSortedBlocks lt s 1
              (merge_rounds lt fuel (round lt size (b / 2) a) (b / 2) (size * 2)))
          (halves_pow b k size e)
          (merge_rounds-HasSortedBlocks o k fuel (round lt size (b / 2) a) (b / 2) (size * 2)
            (omega (arith, two-pow-succ k)) (omega (arith, two-pow-succ k, pow_pos k))
            (round-HasSortedBlocks lt o size (b / 2) b a (omega arith) h)))

  -- One ascending block that is the whole list.
  IsSorted-whole :
      (n : ℕ) (a : List (Index Mark)) → n ≡ length a → HasSortedBlocks lt n 1 a → IsSorted lt a
  IsSorted-whole n a e h = subst (IsSorted lt) (take_all a n e) h.1

  rounds-IsSorted :
      IsOrder lt
      → (a : List (Index Mark)) (k b size : ℕ) → b ≡ 2 ^ k
      → length a ≡ b * size
      → HasSortedBlocks lt size b a
      → IsSorted lt (merge_rounds lt b a b size)
  rounds-IsSorted o a k b size e l h =
      IsSorted-whole (b * size) (merge_rounds lt b a b size)
        (omega (arith, length-merge_rounds b a b size (omega arith)))
        (merge_rounds-HasSortedBlocks o k b a b size e (omega arith) h)

  -- If the marks are ordered, and the records are 2 ^ k ascending blocks of one size, `merge_all`
  -- makes one ascending list of the same records.
  pub merge_all-IsSorted :
      IsOrder lt
      → (a : List (Index Mark)) (k size : ℕ) → length a ≡ 2 ^ k * size
      → HasSortedBlocks lt size (2 ^ k) a
      → IsSorted lt (merge_all lt a (2 ^ k) size) × Perm (merge_all lt a (2 ^ k) size) a
  unfolding merge_all
  merge_all-IsSorted o a k size e h = (
    rounds-IsSorted o a k (2 ^ k) size refl e h,
    merge_rounds-perm (2 ^ k) a (2 ^ k) size (omega arith),
  )

  -- What `lastMerge` makes of the records when its numbers fit.
  abbrev pub merged : List (Index Mark) → ℕ → ℕ → List (Index Mark)
  merged a records memsize = merge_rounds lt (records / memsize) a (records / memsize) memsize

  -- If the marks are ordered, and the file is 2 ^ k ascending chunks of `memsize` records,
  -- `memsize` not 0, then that is sorted.
  pub merged-IsSorted :
      IsOrder lt
      → (a : List (Index Mark)) (k memsize : ℕ) → 0 < memsize
      → length a ≡ 2 ^ k * memsize
      → HasSortedBlocks lt memsize (2 ^ k) a
      → IsSorted lt (merged a (length a) memsize)
  merged-IsSorted o a k memsize pos e h =
      let chunks : length a / memsize ≡ 2 ^ k =
        ap (λ n. n / memsize) e ∙ mul-div_cancel (2 ^ k) pos in
      rw chunks (rounds-IsSorted o a k (2 ^ k) memsize refl e h)

  -- It keeps every record, for any number of chunks and in any order of the records.
  pub merged-perm : (a : List (Index Mark)) (memsize : ℕ) → Perm (merged a (length a) memsize) a
  merged-perm a memsize =
      merge_rounds-perm (length a / memsize) a (length a / memsize) memsize
        (div-mul-le_self (length a) memsize)

  -- With an odd number of whole chunks it merges the last one with nothing: from the
  -- last even number of chunks on, every record stays where it is.
  pub merged-behind :
      (a : List (Index Mark)) (memsize n : ℕ)
      → length a / memsize ≡ 2 * n + 1
      → drop (2 * n * memsize) (merged a (length a) memsize) ≡ drop (2 * n * memsize) a
  merged-behind a memsize n e =
      let half : length a / memsize / 2 ≡ n = omega arith in
      merge_rounds-behind (length a / memsize) a (length a / memsize) memsize (2 * n * memsize)
        (div-mul-le_self (length a) memsize) (omega (arith, ap (λ t. 2 * t * memsize) half))
