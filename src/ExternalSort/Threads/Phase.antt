-- ===== src/ExternalSort/Threads/Phase.antt =====
-- The sorting phase of Lab6/main.c as a whole: from any start, in any order of the threads.
use mathlib.Core.List.{Perm}
use mathlib.Core.List.Perm
use osisp_labs.Common.{
  ℕ, zero, suc, ◌+◌, ◌*◌, ◌^◌, ◌≤◌, ◌<◌, ◌≡◌, ◌≢◌, false, inl, inr, refl, ap, ◌∙◌, sym, subst, Bool,
  List, [], ◌∷◌, arith, length, length-set, length-replicate, get_or, get_or-set_self,
  get_or-set_ne, get_or-replicate, set, replicate, ltb, Bool-cases, drop,
}
use native.Mathlib.Decide.{dec_lt, ℕ_discrete}
use osisp_labs.ExternalSort.{Index, slice}
use osisp_labs.ExternalSort.Order.{IsSorted, IsQsort}
use osisp_labs.ExternalSort.Slices.{HasSortedBlocks-slices}
use osisp_labs.ExternalSort.Rounds.{HasSortedBlocks}
use osisp_labs.ExternalSort.Threads.{
  Pc, sorting, claiming, at_barrier, overflowed, max_threads, State, mark_own, start, move, turn,
  schedule,
}
use osisp_labs.ExternalSort.Threads.Invariant.{Inv, sort-Inv, claim-Inv}

length-mark_own : (n : ℕ) (m : List ℕ) → length (mark_own n m) ≡ length m
unfolding mark_own
length-mark_own zero m = refl
length-mark_own (suc n) m = length-mark_own n (set m n 1) ∙ length-set m n 1

mark_own_behind : (n : ℕ) (m : List ℕ) (k : ℕ) → n ≤ k → get_or (mark_own n m) k 1 ≡ get_or m k 1
unfolding mark_own
mark_own_behind zero m k h = refl
mark_own_behind (suc n) m k h =
    mark_own_behind n (set m n 1) k (omega arith) ∙ get_or-set_ne m n k 1 1 (omega arith)

mark_own_marked :
    (n : ℕ) (m : List ℕ) (k : ℕ) → k < n → n ≤ length m → get_or (mark_own n m) k 1 ≡ 1
unfolding mark_own
mark_own_marked zero m k h l = absurd (omega arith)
mark_own_marked (suc n) m k h l = elim (ℕ_discrete n k) [
  | yes e ↦
      mark_own_behind n (set m n 1) k (omega arith)
      ∙ ap (λ j. get_or (set m n 1) j 1) (sym e)
      ∙ get_or-set_self m n 1 1 (omega arith)
  | no ne ↦ mark_own_marked n (set m n 1) k (omega arith) (omega (arith, length-set m n 1))
]

module _ {Mark : Type 0} (lt : Mark → Mark → Bool) (size threads block_num : ℕ)
    (given : List (Index Mark)) where
  pub start-Inv :
      threads ≤ block_num
      → threads ≤ 128
      → block_num * size ≤ length given
      → block_num * size < 2 ^ 27
      → Inv lt size threads block_num given (start threads block_num given)
  unfolding start
  start-Inv enough room fits few =
      let in_arrays : ltb max_threads threads ≡ false = ground (arith, room) in
      rw in_arrays (record {
        map_length = length-mark_own threads (replicate block_num 0) ∙ length-replicate block_num 0;
        record_count = refl;
        fits = fits;
        few = few;
        defined = λ i h e. absurd (ground arith);
        owned = λ i b hi e.
            let own : i ≡ b = ground arith in
            (
              omega arith,
              λ z. absurd (
                  omega (
                    arith,
                    mark_own_marked threads (replicate block_num 0) b,
                    length-replicate block_num (zero),
                  )),
            );
        apart = λ i j b hi hj ei ej. ground arith;
        marked = λ b hb m. elim (dec_lt b threads) [
          | yes own ↦ inr (b, own, refl)
          | no free ↦ absurd (
              m (
                mark_own_behind threads (replicate block_num 0) b (omega arith)
                ∙ get_or-replicate block_num 0 b 1 hb))
        ];
        all_marked = λ i hi e b hb. absurd (ground arith);
        kept = Perm.refl given;
      })

  module _ {qsort : List (Index Mark) → List (Index Mark)} (q : IsQsort lt qsort) where
    turn-Inv :
        (i : ℕ) (s : State (Index Mark))
        → Inv lt size threads block_num given s
        → Inv lt size threads block_num given (turn qsort size threads i s)
    unfolding turn
    turn-Inv i s v = elim (Bool-cases (ltb i threads)) [
      | inl here ↦ rw here (by_pc (s.pc i) refl (ground arith))
      | inr not_there ↦ rw not_there v
    ]
      where
        by_pc :
            (p : Pc)
            → s.pc i ≡ p
            → i < threads
            → Inv lt size threads block_num given (move qsort size p i s)
        by_pc (sorting b) e here = sort-Inv lt size threads block_num given q v i here b e
        by_pc claiming e here = claim-Inv lt size threads block_num given q v i here e
        by_pc at_barrier e here = v
        by_pc overflowed e here = v

    -- The invariant holds in every order of the moves.
    pub schedule-Inv :
        (is : List ℕ) (s : State (Index Mark))
        → Inv lt size threads block_num given s
        → Inv lt size threads block_num given (schedule qsort size threads is s)
    unfolding schedule
    schedule-Inv [] s v = v
    schedule-Inv (i ∷ is) s v = schedule-Inv is (turn qsort size threads i s) (turn-Inv i s v)

  module _ {qsort : List (Index Mark) → List (Index Mark)} (q : IsQsort lt qsort)
      (enough : threads ≤ block_num) (room : threads ≤ 128) (fits : block_num * size ≤ length given)
      (few : block_num * size < 2 ^ 27) (is : List ℕ) where
    abbrev final : State (Index Mark)
    final = schedule qsort size threads is (start threads block_num given)

    final-Inv : Inv lt size threads block_num given final
    final-Inv = schedule-Inv q is (start threads block_num given) (start-Inv enough room fits few)

    pub none_overflows : (k : ℕ) → k < threads → final.pc k ≢ overflowed
    none_overflows = final-Inv.defined

    -- In any order of the moves: once all threads wait for the merge, every block ascends and the
    -- records are those given.
    pub phase_sorts :
        0 < threads
        → ((i : ℕ) → i < threads → final.pc i ≡ at_barrier)
        → HasSortedBlocks lt size block_num final.records × Perm final.records given
    phase_sorts some_thread all_there = (
      subst (HasSortedBlocks lt size block_num) (ap (λ k. drop k final.records) none_before) (
          HasSortedBlocks-slices lt size block_num 0 final.records
            (omega (arith, fits, final-Inv.record_count)) done),
      final-Inv.kept,
    )
      where
        none_before : 0 * size ≡ 0
        none_before = omega arith

        done :
            (b : ℕ) → 0 ≤ b → b < 0 + block_num → IsSorted lt (slice final.records (b * size) size)
        done b _ hb =
            elim (final-Inv.marked b (omega arith)
              (final-Inv.all_marked 0 some_thread (all_there 0 some_thread) b (omega arith))) [
                | inl d ↦ d
                | inr (i, hi, ei) ↦ absurd (ground (arith, all_there i hi))
              ]
