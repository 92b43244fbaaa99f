-- ===== src/ExternalSort/Main/Tests.antt =====
-- Lab6/main.c on a file of eight records, in four chunks of two blocks, with two threads.
use mathlib.Core.List.{Perm}
use osisp_labs.Common.{
  ℕ, zero, suc, ◌+◌, ◌*◌, ◌^◌, ◌≤◌, ◌<◌, ◌≡◌, refl, some, List, [], ◌∷◌, ◌++◌, arith, ltb,
}
use osisp_labs.ExternalSort.{
  Index, merge_all, merge, merge_pairs, merge_loop, last_merge, find_next_free_block,
}
use osisp_labs.ExternalSort.Order.{IsSorted}
use osisp_labs.ExternalSort.Threads.Progress.{turns_of}
use osisp_labs.ExternalSort.Threads.{schedule, start}
use osisp_labs.ExternalSort.MergePhase.{merge_phase, merge_turns, merge_turn, all_wait}
use osisp_labs.ExternalSort.MergePhase.Round.{merge_phase-merge_all}
use osisp_labs.ExternalSort.Chunks.{check_arguments, chunk_loop}
use osisp_labs.ExternalSort.Main.{sort_threads, sort_file, all_at_barrier}
use osisp_labs.ExternalSort.Main.Chunk.{IsFair}
use osisp_labs.ExternalSort.Main.Sorts.{sort_file-IsSorted}
use osisp_labs.ExternalSort.Tests.{
  index, shuffled, insertion, insertion-IsQsort, ltb-IsOrder, in_turn,
}

abbrev eight : List (Index ℕ)
eight = shuffled ++ (index 0 7 ∷ index 8 8 ∷ [])

-- The second thread runs first.
abbrev backwards : List ℕ
backwards = 1 ∷ 0 ∷ 0 ∷ 1 ∷ []

abbrev pub by_chunk : ℕ → List ℕ
by_chunk first = in_turn 6

abbrev pub by_round : ℕ → ℕ → List ℕ
by_round first round = backwards

sort_file_runs :
    sort_file ltb insertion 2 by_chunk by_round 4 2 2 eight
    ≡ some (
        index 0 7
        ∷ index 1 4
        ∷ index 2 2
        ∷ index 3 6
        ∷ index 4 5
        ∷ index 5 1
        ∷ index 8 8
        ∷ index 9 3
        ∷ [])
unfolding sort_file check_arguments chunk_loop sort_threads all_at_barrier schedule start
    find_next_free_block merge_phase all_wait merge_turns merge_turn last_merge merge_pairs merge
    merge_loop insertion
sort_file_runs = refl

pub fair : (first : ℕ) → IsFair 2 (2 ^ 1) (by_chunk first) (by_round first)
fair first = (turns, λ r i h. again i h)
  where
    turns : (i : ℕ) → i < 2 → 2 * 2 ^ 1 + 2 ≤ turns_of i (in_turn 6)
    turns zero h = omega arith
    turns (suc zero) h = omega arith
    turns (suc (suc i)) h = absurd (omega arith)

    again : (i : ℕ) → i < 2 → 2 ^ 1 ≤ turns_of i backwards
    again zero h = omega arith
    again (suc zero) h = omega arith
    again (suc (suc i)) h = absurd (omega arith)

sort_file-IsSorted_example :
    (sorted : List (Index ℕ)) × (sort_file ltb insertion 2 by_chunk by_round 4 2 (2 ^ 1) eight
      ≡ some sorted)
    × IsSorted ltb sorted
    × Perm sorted eight
sort_file-IsSorted_example =
    sort_file-IsSorted ltb insertion 2 1 1 2 by_chunk by_round ltb-IsOrder insertion-IsQsort
      (omega arith) (omega arith) (omega arith) refl (omega arith) fair 4 2 eight (omega arith) refl
      (omega arith) (omega arith)

merge_phase-merge_all_example :
    merge_phase ltb 2 2 (by_round 0) eight 2 4 ≡ some (merge_all ltb eight 2 4)
merge_phase-merge_all_example =
    merge_phase-merge_all ltb 2 (omega arith) (by_round 0) eight 2 4 (omega arith) (omega arith)
      (fair 0).1
