-- ===== src/ExternalSort/MergePhase/Pairs.antt =====
-- The pairs of blocks of Lab6/main.c: what one merge does to them, and lists that agree on all.
use osisp_labs.Common.{
  ℕ, zero, suc, ◌+◌, ◌*◌, ◌≤◌, ◌<◌, ◌≡◌, ◌≢◌, refl, ap, ap₂, ◌∙◌, sym, subst, Bool, List, [], ◌∷◌,
  ◌++◌, arith, length, take, drop, take-append-drop, length-take, length-drop,
}
use native.Mathlib.Decide.{ℕ_discrete}
use osisp_labs.ExternalSort.{Index, slice, splice, merge_loop, merge, merge_pairs}
use osisp_labs.ExternalSort.Merge.{length-merge_loop}
use osisp_labs.ExternalSort.Rounds.{drop-drop}
use osisp_labs.ExternalSort.Slices.{
  slice-splice_self, slice-splice_ne, length-splice, length-slice, slice_behind,
}

module _ {A : Type 0} where
  take-take : (m n : ℕ) (xs : List A) → m ≤ n → take m (take n xs) ≡ take m xs
  take-take zero n xs h = refl
  take-take (suc m) zero xs h = absurd (omega arith)
  take-take (suc m) (suc n) [] h = refl
  take-take (suc m) (suc n) (x ∷ xs) h = ap (◌∷◌ x) (take-take m n xs (omega arith))

  take-drop-take :
      (m n k : ℕ) (xs : List A) → m + k ≤ n → take m (drop k (take n xs)) ≡ take m (drop k xs)
  take-drop-take m n zero xs h = take-take m n xs (omega arith)
  take-drop-take m zero (suc k) xs h = absurd (omega arith)
  take-drop-take m (suc n) (suc k) [] h = refl
  take-drop-take m (suc n) (suc k) (x ∷ xs) h = take-drop-take m n k xs (omega arith)

  -- Two lists that agree on `n` blocks and behind them are equal.
  pub blocks-ext :
      (d n o : ℕ) (a b : List A)
      → ((p : ℕ) → p < n → slice a (p * d + o) d ≡ slice b (p * d + o) d)
      → drop (n * d + o) a ≡ drop (n * d + o) b
      → drop o a ≡ drop o b
  blocks-ext d zero o a b same rest =
      ap (λ k. drop k a) (omega arith) ∙ rest ∙ ap (λ k. drop k b) (omega arith)
  blocks-ext d (suc n) o a b same rest =
      sym (take-append-drop d (drop o a))
      ∙ ap₂ ◌++◌ head (
          drop-drop d o (o + d) a refl
          ∙ blocks-ext d n (o + d) a b shifted
              (ap (λ k. drop k a) (grind arith) ∙ rest ∙ ap (λ k. drop k b) (grind arith))
          ∙ sym (drop-drop d o (o + d) b refl))
      ∙ take-append-drop d (drop o b)
    where
      head : slice a o d ≡ slice b o d
      head =
          ap (λ k. slice a k d) (omega arith)
          ∙ same 0 (omega arith)
          ∙ ap (λ k. slice b k d) (omega arith)

      shifted : (p : ℕ) → p < n → slice a (p * d + (o + d)) d ≡ slice b (p * d + (o + d)) d
      shifted p h =
          ap (λ k. slice a k d) (grind arith)
          ∙ same (suc p) (omega arith)
          ∙ ap (λ k. slice b k d) (grind arith)

module _ {Mark : Type 0} (lt : Mark → Mark → Bool) where
  -- What a merge makes of the records of its pair.
  abbrev pub joined : ℕ → List (Index Mark) → List (Index Mark)
  joined size pair = merge_loop lt (take size pair) (take size (drop size pair))

  pub length-joined :
      (size : ℕ) (pair : List (Index Mark))
      → length pair ≡ size * 2
      → length (joined size pair) ≡ size * 2
  length-joined size pair e = omega (
    arith,
    length-merge_loop lt (take size pair) (take size (drop size pair)),
    length-take size pair,
    length-take size (drop size pair),
    length-drop size pair,
  )

  pub merge_pair :
      (a : List (Index Mark)) (p size : ℕ)
      → merge lt a (p * 2 * size) ((p * 2 + 1) * size) size
        ≡ splice a (p * (size * 2)) (size * 2) (joined size (slice a (p * (size * 2)) (size * 2)))
  unfolding merge
  merge_pair a p size =
      ap₂ (λ k l. take k a ++ (l ++ drop (k + size * 2) a)) where_it_starts
        (ap₂ (merge_loop lt) (first ∙ sym first_of_pair) (second ∙ sym second_of_pair))
    where
      where_it_starts : p * 2 * size ≡ p * (size * 2)
      where_it_starts = grind arith

      first : take size (drop (p * 2 * size) a) ≡ take size (drop (p * (size * 2)) a)
      first = ap (λ k. take size (drop k a)) where_it_starts

      first_of_pair :
          take size (slice a (p * (size * 2)) (size * 2)) ≡ take size (drop (p * (size * 2)) a)
      first_of_pair = take-take size (size * 2) (drop (p * (size * 2)) a) (omega arith)

      second :
          take size (drop ((p * 2 + 1) * size) a) ≡ take size (drop size (drop (p * (size * 2)) a))
      second =
          ap (take size)
            (sym (drop-drop size (p * (size * 2)) ((p * 2 + 1) * size) a (grind arith)))

      second_of_pair :
          take size (drop size (slice a (p * (size * 2)) (size * 2)))
          ≡ take size (drop size (drop (p * (size * 2)) a))
      second_of_pair = take-drop-take size (size * 2) size (drop (p * (size * 2)) a) (omega arith)

  -- One merge writes the joined records to its pair, and leaves the other pairs and the end alone.
  pub merge_pair_effect :
      (a : List (Index Mark)) (p size half : ℕ)
      → p < half
      → half * (size * 2) ≤ length a
      → let b = merge lt a (p * 2 * size) ((p * 2 + 1) * size) size in
        (length b ≡ length a)
        × (slice b (p * (size * 2)) (size * 2) ≡ joined size (slice a (p * (size * 2)) (size * 2)))
        × ((q : ℕ)
            → p ≢ q
            → slice b (q * (size * 2)) (size * 2) ≡ slice a (q * (size * 2)) (size * 2))
        × (drop (half * (size * 2)) b ≡ drop (half * (size * 2)) a)
  merge_pair_effect a p size half h fits =
      let d = size * 2 in
      let inside : p * d + d ≤ half * d = grind arith in
      let block = slice a (p * d) d in
      let n : length (joined size block) ≡ d =
        length-joined size block (length-slice (p * d) d a (omega arith)) in
      (
        ap length (merge_pair a p size)
            ∙ length-splice (p * d) d a (joined size block) (omega arith) n,
        ap (λ l. slice l (p * d) d) (merge_pair a p size)
            ∙ slice-splice_self (p * d) d a (joined size block) (omega arith) n,
        λ q ne.
            ap (λ l. slice l (q * d) d) (merge_pair a p size)
            ∙ slice-splice_ne p q d a (joined size block) ne (omega arith) n,
        ap (drop (half * d)) (merge_pair a p size)
            ∙ slice_behind (half * d) (p * d) d a (joined size block) inside (omega arith) n,
      )

  -- The sequential round joins each pair once.
  pub merge_pairs_effect :
      (rounds i size half : ℕ) (a : List (Index Mark))
      → i + rounds ≤ half
      → half * (size * 2) ≤ length a
      → let b = merge_pairs lt size a i rounds in
        (length b ≡ length a)
        × ((q : ℕ)
            → q < i
            → slice b (q * (size * 2)) (size * 2) ≡ slice a (q * (size * 2)) (size * 2))
        × ((q : ℕ)
            → i ≤ q
            → q < i + rounds
            → slice b (q * (size * 2)) (size * 2)
              ≡ joined size (slice a (q * (size * 2)) (size * 2)))
        × (drop (half * (size * 2)) b ≡ drop (half * (size * 2)) a)
  unfolding merge_pairs
  merge_pairs_effect zero i size half a h fits =
      (refl, (λ q l. refl), (λ q l m. absurd (omega arith)), refl)
  merge_pairs_effect (suc rounds) i size half a h fits =
      let (n, own, other, end) = merge_pair_effect a i size half (omega arith) fits in
      let b = merge lt a (i * 2 * size) ((i * 2 + 1) * size) size in
      let (n', below, inside, end') =
        merge_pairs_effect rounds (i + 1) size half b (omega arith) (omega arith) in
      (
        n' ∙ n,
        (λ q l. below q (omega arith) ∙ other q (λ e. absurd (omega arith))),
        (λ q l m. elim (ℕ_discrete i q) [
          | yes e ↦
              subst
                (λ k.
                  slice (merge_pairs lt size b (i + 1) rounds) (k * (size * 2)) (size * 2)
                  ≡ joined size (slice a (k * (size * 2)) (size * 2)))
                e (below i (omega arith) ∙ own)
          | no ne ↦ inside q (omega arith) (omega arith) ∙ ap (joined size) (other q ne)
        ]),
        end' ∙ end,
      )
