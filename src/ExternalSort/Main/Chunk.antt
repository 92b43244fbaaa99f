-- ===== src/ExternalSort/Main/Chunk.antt =====
-- One chunk of Lab6/main.c: the threads sort it, in every order that lets each of them run.
use mathlib.Core.List.{Perm}
use mathlib.Core.List.Perm
use osisp_labs.Common.{
  ℕ, zero, suc, ◌+◌, ◌*◌, ◌^◌, ◌≤◌, ◌<◌, ◌≡◌, refl, ◌∙◌, Bool, true, some, List, arith, length,
}
use osisp_labs.ExternalSort.{Index, merge_all}
use osisp_labs.ExternalSort.Order.{IsOrder, IsQsort, IsSorted}
use osisp_labs.ExternalSort.Phases.{merge_all-IsSorted}
use osisp_labs.ExternalSort.Threads.{Pc, at_barrier, start, schedule}
use osisp_labs.ExternalSort.Threads.Blocks.{perm-length}
use osisp_labs.ExternalSort.Threads.Progress.{turns_of, phase_completes}
use osisp_labs.ExternalSort.MergePhase.Round.{merge_phase-merge_all}
use osisp_labs.ExternalSort.Main.{all_at_barrier, sort_threads}

-- Every thread has turns enough in the sorting phase and in each round of the merge phase.
abbrev pub IsFair : ℕ → ℕ → List ℕ → (ℕ → List ℕ) → Type 0
IsFair threads block_num order orders =
    ((i : ℕ) → i < threads → 2 * block_num + 2 ≤ turns_of i order)
    × ((r i : ℕ) → i < threads → block_num ≤ turns_of i (orders r))

all_at_barrier_lem :
    (n : ℕ) (pc : ℕ → Pc) → ((i : ℕ) → i < n → pc i ≡ at_barrier) → all_at_barrier n pc ≡ true
unfolding all_at_barrier
all_at_barrier_lem zero pc h = refl
all_at_barrier_lem (suc n) pc h =
    rw (h n (omega arith)) (all_at_barrier_lem n pc (λ i l. h i (omega arith)))

module _ {Mark : Type 0} (lt : Mark → Mark → Bool)
    {qsort : List (Index Mark) → List (Index Mark)} where
  -- With ordered marks, a `qsort` that sorts, at least one thread, no more threads than blocks and
  -- than 128, and a chunk of 2 ^ j blocks and fewer than 2 ^ 27 records: the threads come to an end in every fair order, with one ascending
  -- list of the records of the chunk.
  pub sort_threads-IsSorted :
      IsOrder lt
      → IsQsort lt qsort
      → (threads j size : ℕ) (order : List ℕ) (orders : ℕ → List ℕ) (chunk : List (Index Mark))
      → 0 < threads
      → threads ≤ 2 ^ j
      → threads ≤ 128
      → length chunk ≡ 2 ^ j * size
      → 2 ^ j * size < 2 ^ 27
      → IsFair threads (2 ^ j) order orders
      → (sorted : List (Index Mark)) × (sort_threads lt qsort threads order orders
            (2 ^ j)
            size
            chunk
          ≡ some sorted)
        × IsSorted lt sorted
        × Perm sorted chunk
  unfolding sort_threads
  sort_threads-IsSorted o q threads j size order orders chunk pos enough room whole few
        (fair, fair') =
      let s = schedule qsort size threads order (start threads (2 ^ j) chunk) in
      let (there, blocks, kept) =
        phase_completes lt size threads (2 ^ j) chunk q pos enough room (omega (arith, whole)) few
          order fair in
      let n : length s.records ≡ 2 ^ j * size = perm-length kept ∙ whole in
      let (ascends, same) = merge_all-IsSorted lt o s.records j size n blocks in
      (
        merge_all lt s.records (2 ^ j) size,
        rw (all_at_barrier_lem threads s.pc there) (
            merge_phase-merge_all lt threads pos orders s.records (2 ^ j) size (omega (arith, n))
              few fair'),
        ascends,
        Perm.trans same kept,
      )
