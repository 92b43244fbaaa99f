-- ===== src/ExternalSort/Main.antt =====
-- `sort_thread` and `main` of Lab6/main.c as a whole: what the threads make of one chunk, and the
-- sort of the file. The order in which the threads run is given for each chunk, and for each round
-- of its merge phase.
pub mod Chunk
pub mod Sorts
pub mod Tests
use mathlib.Core.Option.{Option}
use mathlib.Core.Option
use osisp_labs.Common.{
  ℕ, zero, suc, ◌+◌, ◌*◌, ◌/◌, ◌%◌, ◌^◌, Bool, true, false, ◌&&◌, ◌>>=◌, none, some, List, [], ◌∷◌,
  ◌==◌, if◌then◌else◌, length,
}
use osisp_labs.ExternalSort.{Index, slice, splice, last_merge}
use osisp_labs.ExternalSort.Threads.{Pc, sorting, claiming, at_barrier, start, schedule}
use osisp_labs.ExternalSort.MergePhase.{merge_phase}
use osisp_labs.ExternalSort.Chunks.{index_size, data_size, check_arguments, chunk_loop}

abbrev pub waits : Pc → Bool
waits at_barrier = true
waits _ = false

-- Do the first `n` threads wait for the merge phase?
unfoldable pub all_at_barrier : ℕ → (ℕ → Pc) → Bool
all_at_barrier zero pc = true
all_at_barrier (suc n) pc = waits (pc n) && all_at_barrier n pc

abbrev pub joint {ℓ} : {A : Type ℓ} → Option (Option A) → Option A
joint none = none
joint (some file) = file

-- What follows the loop over the chunks.
abbrev pub finish :
    {Mark : Type 0} → (Mark → Mark → Bool) → ℕ → ℕ → List (Index Mark) → Option (List (Index Mark))
finish lt memsize filesize file =
    if memsize * index_size == data_size filesize
    then some file
    else last_merge lt file (data_size filesize / index_size) memsize

module _ {Mark : Type 0} (lt : Mark → Mark → Bool) (qsort : List (Index Mark) → List (Index Mark))
    (threads : ℕ) where
  -- `sort_thread` in all threads, on a chunk of `block_num` blocks. `none`: the order leaves a
  -- thread at work, so a barrier does not open, or there is an overflow.
  unfoldable pub sort_threads :
      List ℕ → (ℕ → List ℕ) → ℕ → ℕ → List (Index Mark) → Option (List (Index Mark))
  sort_threads order orders block_num size chunk =
      let s = schedule qsort size threads order (start threads block_num chunk) in
      if all_at_barrier threads s.pc
      then merge_phase lt threads block_num orders s.records block_num size
      else none

  module _ (order : ℕ → List ℕ) (orders : ℕ → ℕ → List ℕ) where
    -- The body of the loop over chunks, with `tmpStart` at a record of the file.
    unfoldable pub sort_chunk :
        ℕ → ℕ → ℕ → ℕ → Option (List (Index Mark)) → Option (List (Index Mark))
    sort_chunk memsize block_num size first none = none
    sort_chunk memsize block_num size first (some file) =
        Option.map (splice file first memsize)
          (sort_threads (order first) (orders first) block_num size (slice file first memsize))

    -- `main` behind the checks, for a file of that many bytes.
    unfoldable pub sort_checked :
        ℕ → ℕ → ℕ → List (Index Mark) → Option (ℕ × ℕ) → Option (List (Index Mark))
    sort_checked fuel memsize filesize file none = none
    sort_checked fuel memsize filesize file (some (blocks, block_size)) =
        joint (
          chunk_loop (sort_chunk memsize blocks (block_size / index_size)) memsize
            (data_size filesize / index_size) fuel 0 (some file))
        >>= finish lt memsize filesize

    -- `main` behind its command line, for a file of a header and records. `none`: it exits,
    -- overflows, or does not come to an end after so many rounds.
    unfoldable pub sort_file : ℕ → ℕ → ℕ → List (Index Mark) → Option (List (Index Mark))
    unfolding sort_chunk sort_checked
    sort_file fuel memsize block_num file =
        let filesize = 16 + length file * index_size in
        sort_checked fuel memsize filesize file (check_arguments memsize block_num filesize)
