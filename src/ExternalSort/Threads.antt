-- ===== src/ExternalSort/Threads.antt =====
-- The sorting phase of `sort_thread` in Lab6/main.c, from the first barrier to the second: every
-- thread sorts the block with its own number, then takes free blocks from the map under the mutex
-- until there is none. A thread runs one move at a time: a `qsort` of its block, or one visit of
-- the map with the mutex held. The size of a block and its address are
-- `int`s.
pub mod Blocks
pub mod Invariant
pub mod Phase
pub mod Progress
use osisp_labs.Common.{
  ℕ, zero, suc, ◌+◌, ◌*◌, Bool, true, false, ◌&&◌, List, [], ◌∷◌, Option, none, some, ltb, ◌==◌,
  if◌then◌else◌, set, replicate,
}
use osisp_labs.ExternalSort.{slice, splice, find_next_free_block, in_int}

-- Where a thread stands.
pub data Pc : Type 0 where
  sorting : ℕ → Pc  -- before the `qsort` of this block
  claiming : Pc  -- before `pthread_mutex_lock`
  at_barrier : Pc  -- in the `pthread_barrier_wait` of the branch for -1
  overflowed : Pc  -- behind undefined behaviour

abbrev pub update : (ℕ → Pc) → ℕ → Pc → ℕ → Pc
update pc i p j = if i == j then p else pc j

pub record State (A : Type 0) : Type 0 where
  pub block_map : List ℕ
  pub records : List A
  pub pc : ℕ → Pc

-- The entries that `main` sets to 1 before the threads run: 1 to `threads - 1` in its loop, 0 last.
-- A write behind the map is outside the array, and is lost here.
unfoldable pub mark_own : ℕ → List ℕ → List ℕ
mark_own zero block_map = block_map
mark_own (suc i) block_map = mark_own i (set block_map i 1)

-- The entries of `threadPids` and `threadArgs`.
abbrev pub max_threads : ℕ
max_threads = 128

-- Where a thread starts. With too many threads `main` has written behind its arrays.
abbrev pub first_pc : Bool → ℕ → Pc
first_pc true i = overflowed
first_pc false i = sorting i

module _ {A : Type 0} where
  -- The state as the first barrier opens.
  unfoldable pub start : ℕ → ℕ → List A → State A
  unfolding mark_own
  start threads block_num records = record {
    block_map = mark_own threads (replicate block_num 0);
    records = records;
    pc = first_pc (ltb max_threads threads);
  }

  -- The block of the branch under the mutex: -1 or the number that was found.
  unfoldable pub claim : Option ℕ → ℕ → State A → State A
  claim none i s = record s { pc = update s.pc i at_barrier }
  claim (some next_block) i s = record s {
    block_map = set s.block_map next_block 1;
    pc = update s.pc i (sorting next_block);
  }

  module _ (qsort : List A → List A) (size : ℕ) where
    unfoldable pub move : Pc → ℕ → State A → State A
    unfolding claim
    move (sorting b) i s =
        if in_int (b * size) && in_int size
        then record s {
          records = splice s.records (b * size) size (qsort (slice s.records (b * size) size));
          pc = update s.pc i claiming;
        }
        else record s { pc = update s.pc i overflowed }
    move claiming i s = claim (find_next_free_block s.block_map 0) i s
    move at_barrier i s = s
    move overflowed i s = s

    -- Thread `i` moves, if there is one of this number.
    unfoldable pub turn : ℕ → ℕ → State A → State A
    unfolding move
    turn threads i s = if ltb i threads then move (s.pc i) i s else s

    -- The threads move in the order of a list.
    unfoldable pub schedule : ℕ → List ℕ → State A → State A
    unfolding turn
    schedule threads [] s = s
    schedule threads (i ∷ is) s = schedule threads is (turn threads i s)
