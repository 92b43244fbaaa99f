-- ===== src/ExternalSort/Merge.antt =====
-- One merge of two adjacent runs.
use mathlib.Core.List.{Perm, perm_middle, append-nil, append_assoc}
use mathlib.Core.List.Perm
use osisp_labs.Common.{
  ℕ, ◌+◌, ◌*◌, ◌≡◌, ap₂, sym, Bool, true, false, Bool-cases, inl, inr, List, [], ◌∷◌, ◌++◌, arith,
  length, length-append, drop, take-append, drop-append,
}
use osisp_labs.ExternalSort.{Index, slice, merge_loop, merge}
use osisp_labs.ExternalSort.Order.{IsOrder, All, All-map, NotBefore, IsSorted}

module _ {Mark : Type 0} (lt : Mark → Mark → Bool) where
  merge_loop_left :
      (x y : Index Mark) (l r : List (Index Mark))
      → lt x.time_mark y.time_mark ≡ true
      → merge_loop lt (x ∷ l) (y ∷ r) ≡ x ∷ merge_loop lt l (y ∷ r)
  unfolding merge_loop
  merge_loop_left x y l r e = ground arith

  merge_loop_right :
      (x y : Index Mark) (l r : List (Index Mark))
      → lt x.time_mark y.time_mark ≡ false
      → merge_loop lt (x ∷ l) (y ∷ r) ≡ y ∷ merge_loop lt (x ∷ l) r
  unfolding merge_loop
  merge_loop_right x y l r e = ground arith

  -- The loops keep every record, whether the halves ascend or not.
  pub merge_loop-perm : (l r : List (Index Mark)) → Perm (merge_loop lt l r) (l ++ r)
  unfolding merge_loop
  merge_loop-perm [] r = Perm.refl r
  merge_loop-perm (x ∷ l) [] = rw (append-nil l) (Perm.refl (x ∷ l))
  merge_loop-perm (x ∷ l) (y ∷ r) = elim (Bool-cases (lt x.time_mark y.time_mark)) [
    | inl e ↦ rw (merge_loop_left x y l r e) (Perm.cons x (merge_loop-perm l (y ∷ r)))
    | inr e ↦
        rw (merge_loop_right x y l r e)
          (Perm.trans (Perm.cons y (merge_loop-perm (x ∷ l) r)) (Perm.symm (perm_middle (x ∷ l) r)))
  ]

  pub length-merge_loop :
      (l r : List (Index Mark)) → length (merge_loop lt l r) ≡ length l + length r
  unfolding merge_loop
  length-merge_loop [] r = omega arith
  length-merge_loop (x ∷ l) [] = omega arith
  length-merge_loop (x ∷ l) (y ∷ r) =
      ground (arith, length-merge_loop l (y ∷ r), length-merge_loop (x ∷ l) r)

  All-merge_loop :
      (P : Index Mark → Type 0) (l r : List (Index Mark))
      → All P l
      → All P r
      → All P (merge_loop lt l r)
  unfolding merge_loop
  All-merge_loop P [] r hl hr = hr
  All-merge_loop P (x ∷ l) [] hl hr = hl
  All-merge_loop P (x ∷ l) (y ∷ r) hl hr = elim (Bool-cases (lt x.time_mark y.time_mark)) [
    | inl e ↦ rw (merge_loop_left x y l r e) (hl.0, All-merge_loop P l (y ∷ r) hl.1 hr)
    | inr e ↦ rw (merge_loop_right x y l r e) (hr.0, All-merge_loop P (x ∷ l) r hl hr.1)
  ]

  -- Two ascending halves give an ascending whole.
  pub merge_loop-IsSorted :
      IsOrder lt
      → (l r : List (Index Mark)) → IsSorted lt l
      → IsSorted lt r
      → IsSorted lt (merge_loop lt l r)
  unfolding merge_loop
  merge_loop-IsSorted o [] r sl sr = sr
  merge_loop-IsSorted o (x ∷ l) [] sl sr = sl
  merge_loop-IsSorted o (x ∷ l) (y ∷ r) sl sr = elim (Bool-cases (lt x.time_mark y.time_mark)) [
    | inl e ↦
        let first = o.asymm x.time_mark y.time_mark e in
        rw (merge_loop_left x y l r e) (
          All-merge_loop (NotBefore lt x) l (y ∷ r) sl.0 (
            first,
            All-map (NotBefore lt y) (NotBefore lt x)
                (λ z h. o.not_lt_trans z.time_mark y.time_mark x.time_mark h first) r sr.0,
          ),
          merge_loop-IsSorted o l (y ∷ r) sl.1 sr,
        )
    | inr e ↦ rw (merge_loop_right x y l r e) (
      All-merge_loop (NotBefore lt y) (x ∷ l) r
          (
            e,
            All-map (NotBefore lt x) (NotBefore lt y)
                (λ z h. o.not_lt_trans z.time_mark x.time_mark y.time_mark h e) l sl.0,
          )
          sr.0,
      merge_loop-IsSorted o (x ∷ l) r sl sr.1,
    )
  ]

  -- `merge` of two adjacent runs of the same length puts their merge in their place and touches
  -- nothing before and behind them.
  pub merge_adjacent :
      (before l r behind : List (Index Mark)) (start1 start2 count : ℕ)
      → start1 ≡ length before
      → start2 ≡ start1 + count
      → count ≡ length l
      → count ≡ length r
      → merge lt (before ++ (l ++ (r ++ behind))) start1 start2 count
        ≡ before ++ (merge_loop lt l r ++ behind)
  unfolding merge
  merge_adjacent before l r behind start1 start2 count e1 e2 el er =
      ap₂ ◌++◌ (take-append before (l ++ (r ++ behind)) start1 e1)
        (ap₂ ◌++◌ (ap₂ (merge_loop lt) first second) rest)
    where
      whole : List (Index Mark)
      whole = before ++ (l ++ (r ++ behind))

      first : slice whole start1 count ≡ l
      first =
          rw (drop-append before (l ++ (r ++ behind)) start1 e1)
            (take-append l (r ++ behind) count el)

      regroup : whole ≡ (before ++ l) ++ (r ++ behind)
      regroup = sym (append_assoc before l (r ++ behind))

      second : slice whole start2 count ≡ r
      second = rw regroup (
          rw
            (drop-append (before ++ l) (r ++ behind) start2 (omega (arith, length-append before l)))
            (take-append r behind count er))

      rest : drop (start1 + count * 2) whole ≡ behind
      rest =
          rw (regroup, ← append_assoc (before ++ l) r behind)
            (drop-append ((before ++ l) ++ r) behind (start1 + count * 2)
              (omega (arith, length-append before l, length-append (before ++ l) r)))
