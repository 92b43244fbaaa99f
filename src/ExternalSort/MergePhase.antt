-- ===== src/ExternalSort/MergePhase.antt =====
-- The merge phase of `sort_thread` in Lab6/main.c: thread `i` merges the pairs i, i + threads, …
-- of a round, and all threads wait for each other between two rounds. A thread runs one merge at a
-- time, in any order of the threads.
pub mod Pairs
pub mod Turns
pub mod Round
use osisp_labs.Common.{
  ℕ, zero, suc, ◌+◌, ◌*◌, ◌/◌, Bool, true, false, ◌&&◌, Option, none, some, List, [], ◌∷◌, ltb, leb,
  ◌==◌, if◌then◌else◌,
}
use osisp_labs.ExternalSort.{Index, merge, round_fits}

-- The records, and `tmpId` of each thread.
pub record Merging (A : Type 0) : Type 0 where
  pub records : List A
  pub tmp_id : ℕ → ℕ

abbrev pub assign : (ℕ → ℕ) → ℕ → ℕ → ℕ → ℕ
assign f i n j = if i == j then n else f j

-- Do the first `n` threads wait at the barrier?
unfoldable pub all_wait : ℕ → ℕ → (ℕ → ℕ) → Bool
all_wait half zero tmp_id = true
all_wait half (suc n) tmp_id = leb half (tmp_id n) && all_wait half n tmp_id

module _ {Mark : Type 0} (lt : Mark → Mark → Bool) (threads : ℕ) where
  -- One round of the `for` in thread `i`, if it has one left. `merge_phase` sees to the `int`s.
  unfoldable pub merge_turn : ℕ → ℕ → ℕ → Merging (Index Mark) → Merging (Index Mark)
  merge_turn size half i s =
      let p = s.tmp_id i in
      if ltb i threads && ltb p half
      then record {
        records = merge lt s.records (p * 2 * size) ((p * 2 + 1) * size) size;
        tmp_id = assign s.tmp_id i (p + threads);
      }
      else s

  unfoldable pub merge_turns : ℕ → ℕ → List ℕ → Merging (Index Mark) → Merging (Index Mark)
  merge_turns size half [] s = s
  merge_turns size half (i ∷ is) s = merge_turns size half is (merge_turn size half i s)

  -- The `while (merge_blocks > 1)`, with an order of the turns for each of its rounds. `none`: an
  -- order leaves a thread at work, so the barrier does not open, or an `int` of the round overflows.
  unfoldable pub merge_phase :
      ℕ → (ℕ → List ℕ) → List (Index Mark) → ℕ → ℕ → Option (List (Index Mark))
  merge_phase zero orders a blocks size = some a
  merge_phase (suc fuel) orders a blocks size =
      let s = merge_turns size (blocks / 2) (orders 0) (record { records = a; tmp_id = λ i. i }) in
      let rest = merge_phase fuel (λ r. orders (suc r)) s.records (blocks / 2) (size * 2) in
      if ltb 1 blocks
      then (if round_fits blocks size && all_wait (blocks / 2) threads s.tmp_id then rest else none)
      else some a
