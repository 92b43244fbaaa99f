-- ===== src/ExternalSort/MergePhase/Round.antt =====
-- The merge phase of Lab6/main.c: a round of the threads, in any order, is a round of `merge_all`.
use osisp_labs.Common.{
  ℕ, zero, suc, ◌*◌, ◌/◌, ◌^◌, ◌≤◌, ◌<◌, ◌≡◌, refl, ap, ◌∙◌, Bool, true, inl, inr, some, List,
  arith, length, ltb, leb, Bool-cases,
}
use native.Mathlib.Nat.{mul-le-mul_right}
use osisp_labs.ExternalSort.{Index, merge_pairs, merge_rounds, merge_all}
use osisp_labs.ExternalSort.Ints.{round_fits_lem, half_small}
use osisp_labs.ExternalSort.MergePhase.{merge_turns, all_wait, merge_phase}
use osisp_labs.ExternalSort.MergePhase.Pairs.{merge_pairs_effect}
use osisp_labs.ExternalSort.Threads.Progress.{turns_of}
use osisp_labs.ExternalSort.MergePhase.Turns.{start-Inv, turns-Inv, turns_progress, round_lem}

half_fits : (half blocks size n : ℕ) → half * 2 ≤ blocks → blocks * size ≤ n → half * (size * 2) ≤ n
half_fits half blocks size n h k =
    let m : half * 2 * size ≤ blocks * size = mul-le-mul_right size h in
    let e : half * (size * 2) ≡ half * 2 * size = grind arith in omega (arith, m, e)

all_wait_lem : (half n : ℕ) (f : ℕ → ℕ) → ((i : ℕ) → i < n → half ≤ f i) → all_wait half n f ≡ true
unfolding all_wait
all_wait_lem half zero f h = refl
all_wait_lem half (suc n) f h =
    let t : leb half (f n) ≡ true = ground (arith, h n (omega arith)) in
    rw (t) (all_wait_lem half n f (λ i l. h i (omega arith)))

module _ {Mark : Type 0} (lt : Mark → Mark → Bool) (threads : ℕ) (pos : 0 < threads) where
  phase_from :
      (fuel : ℕ) (orders : ℕ → List ℕ) (a : List (Index Mark)) (blocks size : ℕ)
      → blocks * size ≤ length a
      → blocks * size < 2 ^ 27
      → ((r i : ℕ) → i < threads → blocks ≤ turns_of i (orders r))
      → merge_phase lt threads fuel orders a blocks size ≡ some (merge_rounds lt fuel a blocks size)
  unfolding merge_phase merge_rounds
  phase_from zero orders a blocks size fits few fair = refl
  phase_from (suc fuel) orders a blocks size fits few fair = elim (Bool-cases (ltb 1 blocks)) [
    | inr one ↦ rw (one) refl
    | inl more ↦
        let half = blocks / 2 in
        let b = merge_pairs lt size a 0 half in
        let s =
          merge_turns lt threads size half (orders 0) (record { records = a; tmp_id = λ i. i }) in
        let even : half * 2 ≤ blocks = omega arith in
        let inside : half * (size * 2) ≤ length a =
          half_fits half blocks size (length a) even fits in
        let begin = start-Inv lt threads size half a pos inside in
        let v =
          turns-Inv lt threads size half a pos inside (orders 0)
            (record { records = a; tmp_id = λ i. i }) begin in
        let done : (i : ℕ) → i < threads → half ≤ s.tmp_id i = λ i h. omega (
          arith,
          fair 0 i h,
          turns_progress lt threads size half a pos inside (orders 0) i
              (record { records = a; tmp_id = λ j. j }) h,
        ) in
        let there : all_wait half threads s.tmp_id ≡ true =
          all_wait_lem half threads s.tmp_id done in
        let same : s.records ≡ b = round_lem lt threads size half a pos inside s v done in
        let (n, _, _, _) = merge_pairs_effect lt half 0 size half a (omega arith) inside in
        rw (more, round_fits_lem blocks size more few, there)
          (ap (λ l. merge_phase lt threads fuel (λ r. orders (suc r)) l half (size * 2)) same
            ∙ phase_from fuel (λ r. orders (suc r)) b half (size * 2) (omega (arith, n, inside))
                (half_small blocks size few) (λ r i h. omega (arith, fair (suc r) i h)))
  ]

  -- With an order for each round that gives every thread a turn for each block, `threads` at least 1,
  -- and the blocks inside the chunk and of fewer than 2 ^ 27 records together, the merge phase of the threads ends, with the records as
  -- `merge_all` leaves them.
  pub merge_phase-merge_all :
      (orders : ℕ → List ℕ) (a : List (Index Mark)) (blocks size : ℕ)
      → blocks * size ≤ length a
      → blocks * size < 2 ^ 27
      → ((r i : ℕ) → i < threads → blocks ≤ turns_of i (orders r))
      → merge_phase lt threads blocks orders a blocks size ≡ some (merge_all lt a blocks size)
  unfolding merge_all
  merge_phase-merge_all orders a blocks size fits few fair =
      phase_from blocks orders a blocks size fits few fair
