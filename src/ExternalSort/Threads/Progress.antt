-- ===== src/ExternalSort/Threads/Progress.antt =====
-- Every sorting thread of Lab6/main.c reaches the barrier before the merge.
use osisp_labs.Common.{
  ℕ, zero, suc, ◌+◌, ◌*◌, ◌-◌, ◌^◌, ◌≤◌, ◌<◌, ◌≡◌, ◌≢◌, refl, ap, ◌∙◌, subst, Bool, List, [], ◌∷◌,
  some, arith, length, get_or, set, ltb, ◌==◌, if◌then◌else◌, Bool-cases, Option-cases, true, false,
  ◌&&◌, inl, inr,
}
use mathlib.Core.List.{Perm}
use native.Mathlib.Decide.{ℕ_discrete}
use osisp_labs.ExternalSort.{Index}
use osisp_labs.ExternalSort.Order.{IsQsort}
use osisp_labs.ExternalSort.Rounds.{HasSortedBlocks}
use osisp_labs.ExternalSort.Threads.{start}
use osisp_labs.ExternalSort.Threads.Phase.{start-Inv, phase_sorts, none_overflows}
use osisp_labs.ExternalSort.{find_next_free_block, in_int}
use osisp_labs.ExternalSort.Threads.{
  Pc, sorting, claiming, at_barrier, overflowed, State, move, turn, schedule,
}
use osisp_labs.ExternalSort.Threads.Blocks.{find_next_free_block_free}

-- How many blocks the map has free.
abbrev pub free_blocks : List ℕ → ℕ
free_blocks [] = 0
free_blocks (entry ∷ block_map) = (if entry == 0 then 1 else 0) + free_blocks block_map

-- How often a number stands in a schedule.
abbrev pub turns_of : ℕ → List ℕ → ℕ
turns_of i [] = 0
turns_of i (j ∷ is) = (if i == j then 1 else 0) + turns_of i is

free_blocks-set :
    (m : List ℕ) (k : ℕ)
    → k < length m
    → get_or m k 1 ≡ 0
    → free_blocks (set m k 1) + 1 ≡ free_blocks m
free_blocks-set [] k h z = absurd (omega arith)
free_blocks-set (x ∷ m) zero h z = ground arith
free_blocks-set (x ∷ m) (suc k) h z = omega (arith, free_blocks-set m k (omega arith) z)

-- The moves that a thread has left at most, with so many blocks free.
abbrev moves_left : ℕ → Pc → ℕ
moves_left free (sorting b) = 2 * free + 2
moves_left free claiming = 2 * free + 1
moves_left free at_barrier = 0
moves_left free overflowed = 0

moves_left_mono : (f g : ℕ) (p : Pc) → f ≤ g → moves_left f p ≤ moves_left g p
moves_left_mono f g (sorting b) h = omega arith
moves_left_mono f g claiming h = omega arith
moves_left_mono f g at_barrier h = omega arith
moves_left_mono f g overflowed h = omega arith

moves_left_bound : (f : ℕ) (p : Pc) → moves_left f p ≤ 2 * f + 2
moves_left_bound f (sorting b) = omega arith
moves_left_bound f claiming = omega arith
moves_left_bound f at_barrier = omega arith
moves_left_bound f overflowed = omega arith

module _ {A : Type 0} (qsort : List A → List A) (size : ℕ) where
  abbrev left : ℕ → State A → ℕ
  left i s = moves_left (free_blocks s.block_map) (s.pc i)

  claimed_free :
      {b : ℕ} (m : List ℕ)
      → find_next_free_block m 0 ≡ some b
      → free_blocks (set m b 1) + 1 ≡ free_blocks m
  claimed_free {b} m found =
      let (k, e, h, z) = find_next_free_block_free m 0 found in
      ap (λ n. free_blocks (set m n 1) + 1) (omega arith) ∙ free_blocks-set m k h z

  -- A move takes no free block back, and moves no other thread.
  move_other : (p : Pc) (i j : ℕ) (s : State A) → i ≢ j → left i (move qsort size p j s) ≤ left i s
  unfolding move
  move_other (sorting b) i j s ne =
      let e : (j == i) ≡ false = ground arith in
      elim (Bool-cases (in_int (b * size) && in_int size)) [
        | inl fits ↦ rw (fits, e) (omega arith)
        | inr large ↦ rw (large, e) (omega arith)
      ]
  move_other claiming i j s ne =
      let e : (j == i) ≡ false = ground arith in
      elim (Option-cases (find_next_free_block s.block_map 0)) [
        | inl full ↦ rw (full, e) (omega arith)
        | inr (b, found) ↦
            rw (found, e)
              (moves_left_mono (free_blocks (set s.block_map b 1)) (free_blocks s.block_map)
                (s.pc i) (omega (arith, claimed_free s.block_map found)))
      ]
  move_other at_barrier i j s ne = omega arith
  move_other overflowed i j s ne = omega arith

  -- A thread's own move takes one of the moves that it has left.
  move_self :
      (p : Pc) (i : ℕ) (s : State A) → s.pc i ≡ p → left i (move qsort size p i s) ≤ left i s - 1
  unfolding move
  move_self (sorting b) i s e = elim (Bool-cases (in_int (b * size) && in_int size)) [
    | inl fits ↦ rw fits (ground arith)
    | inr large ↦ rw large (ground arith)
  ]
  move_self claiming i s e = elim (Option-cases (find_next_free_block s.block_map 0)) [
    | inl full ↦ rw full (ground arith)
    | inr (b, found) ↦ rw found (ground (arith, claimed_free s.block_map found))
  ]
  move_self at_barrier i s e = rw e (omega arith)
  move_self overflowed i s e = rw e (omega arith)

  turn_self :
      (threads i : ℕ) (s : State A)
      → i < threads
      → left i (turn qsort size threads i s) ≤ left i s - 1
  unfolding turn
  turn_self threads i s h =
      let e : ltb i threads ≡ true = ground arith in rw e (move_self (s.pc i) i s refl)

  turn_other :
      (threads i j : ℕ) (s : State A) → i ≢ j → left i (turn qsort size threads j s) ≤ left i s
  unfolding turn
  turn_other threads i j s ne = elim (Bool-cases (ltb j threads)) [
    | inl e ↦ rw e (move_other (s.pc j) i j s ne)
    | inr e ↦ rw e (omega arith)
  ]

  left-turn :
      (threads i j : ℕ) (s : State A)
      → i < threads
      → left i (turn qsort size threads j s) ≤ left i s - (if i == j then 1 else 0)
  left-turn threads i j s h = elim (ℕ_discrete i j) [
    | yes same ↦
        let e : (i == j) ≡ true = ground arith in
        rw e (
          subst (λ k. left i (turn qsort size threads k s) ≤ left i s - 1) same
            (turn_self threads i s h))
    | no other ↦
        let e : (i == j) ≡ false = ground arith in
        rw e (omega (arith, turn_other threads i j s other))
  ]

  left-schedule :
      (threads i : ℕ) (is : List ℕ) (s : State A)
      → i < threads
      → left i (schedule qsort size threads is s) ≤ left i s - turns_of i is
  unfolding schedule
  left-schedule threads i [] s h = omega arith
  left-schedule threads i (j ∷ is) s h =
      omega (
        arith,
        left-schedule threads i is (turn qsort size threads j s) h,
        left-turn threads i j s h,
      )

  at_barrier_of_left : (f : ℕ) (p : Pc) → p ≢ overflowed → moves_left f p ≡ 0 → p ≡ at_barrier
  at_barrier_of_left f (sorting b) ne e = absurd (omega arith)
  at_barrier_of_left f claiming ne e = absurd (omega arith)
  at_barrier_of_left f at_barrier ne e = refl
  at_barrier_of_left f overflowed ne e = absurd (ne refl)

  -- Whatever the other threads do, a thread that has not overflowed is at the barrier once it has had
  -- two moves for each block that was free and two more.
  pub reaches_barrier :
      (threads i : ℕ) (is : List ℕ) (s : State A)
      → i < threads
      → 2 * free_blocks s.block_map + 2 ≤ turns_of i is
      → (schedule qsort size threads is s).pc i ≢ overflowed
      → (schedule qsort size threads is s).pc i ≡ at_barrier
  reaches_barrier threads i is s h enough sound =
      at_barrier_of_left (free_blocks (schedule qsort size threads is s).block_map)
        ((schedule qsort size threads is s).pc i) sound
        (omega (
          arith,
          left-schedule threads i is s h,
          moves_left_bound (free_blocks s.block_map) (s.pc i),
        ))

free_blocks-le-length : (m : List ℕ) → free_blocks m ≤ length m
free_blocks-le-length [] = omega arith
free_blocks-le-length (x ∷ m) = ground (arith, free_blocks-le-length m)

module _ {Mark : Type 0} (lt : Mark → Mark → Bool) (size threads block_num : ℕ)
    (given : List (Index Mark)) where
  -- With a `qsort` that sorts, at least one thread, no more threads than blocks and than the 128
  -- that the arrays of `main` have room for, and the blocks inside the chunk and of fewer than 2 ^ 27
  -- records together: every schedule that gives each thread two moves for each block and two more
  -- ends with all threads at the barrier, every block ascending, and the records those given.
  pub phase_completes :
      {qsort : List (Index Mark) → List (Index Mark)}
      → IsQsort lt qsort
      → 0 < threads
      → threads ≤ block_num
      → threads ≤ 128
      → block_num * size ≤ length given
      → block_num * size < 2 ^ 27
      → (is : List ℕ) → ((i : ℕ) → i < threads → 2 * block_num + 2 ≤ turns_of i is)
      → let s = schedule qsort size threads is (start threads block_num given) in
        ((i : ℕ) → i < threads → s.pc i ≡ at_barrier)
        × HasSortedBlocks lt size block_num s.records
        × Perm s.records given
  phase_completes {qsort} q some_thread enough room fits few is fair =
      let (blocks, kept) =
        phase_sorts lt size threads block_num given q enough room fits few is some_thread there in
      (there, blocks, kept)
    where
      opened : State (Index Mark)
      opened = start threads block_num given

      open_length : length opened.block_map ≡ block_num
      open_length = (start-Inv lt size threads block_num given enough room fits few).map_length

      there : (i : ℕ) → i < threads → (schedule qsort size threads is opened).pc i ≡ at_barrier
      there i h =
          reaches_barrier qsort size threads i is opened h
            (omega (arith, fair i h, free_blocks-le-length opened.block_map, open_length))
            (none_overflows lt size threads block_num given q enough room fits few is i h)
