-- ===== src/ExternalSort/Tests.antt =====
-- The sort of Lab6/main.c on marks that are numbers, and the theorems at such files.
use mathlib.Core.List.{Perm}
use mathlib.Core.List.Perm
use osisp_labs.Common.{ℕ, zero, suc, ◌+◌, ◌*◌, ◌≤◌, ◌<◌, ◌≡◌, some, refl, List, [], ◌∷◌, arith, ltb}
use osisp_labs.ExternalSort.{
  Index, merge, merge_loop, merge_pairs, last_merge, find_next_free_block,
}
use osisp_labs.ExternalSort.Order.{IsOrder, IsSorted, IsQsort}
use osisp_labs.ExternalSort.Merge.{merge_loop-perm, merge_loop-IsSorted}
use osisp_labs.ExternalSort.Rounds.{HasSortedBlocks}
use osisp_labs.ExternalSort.Threads.{at_barrier, start, schedule}
use osisp_labs.ExternalSort.Threads.Progress.{turns_of, phase_completes}

pub ltb-IsOrder : IsOrder ltb
ltb-IsOrder = record { asymm = λ a b h. ground arith; not_lt_trans = λ a b c h k. ground arith }

abbrev pub index : ℕ → ℕ → Index ℕ
index m r = record { time_mark = m; recno = r }

-- A sort that stands for `qsort`.
unfoldable pub insertion : List (Index ℕ) → List (Index ℕ)
insertion [] = []
insertion (x ∷ a) = merge_loop ltb (x ∷ []) (insertion a)

insertion-IsSorted : (a : List (Index ℕ)) → IsSorted ltb (insertion a)
unfolding insertion
insertion-IsSorted [] = tt
insertion-IsSorted (x ∷ a) =
    merge_loop-IsSorted ltb ltb-IsOrder (x ∷ []) (insertion a) (tt, tt) (insertion-IsSorted a)

insertion-perm : (a : List (Index ℕ)) → Perm (insertion a) a
unfolding insertion
insertion-perm [] = Perm.refl []
insertion-perm (x ∷ a) =
    Perm.trans (merge_loop-perm ltb (x ∷ []) (insertion a)) (Perm.cons x (insertion-perm a))

pub insertion-IsQsort : IsQsort ltb insertion
insertion-IsQsort = record { sorted = insertion-IsSorted; perm = insertion-perm }

abbrev pub shuffled : List (Index ℕ)
shuffled = index 5 1 ∷ index 2 2 ∷ index 9 3 ∷ index 1 4 ∷ index 4 5 ∷ index 3 6 ∷ []

-- four runs of one record
abbrev singles : List (Index ℕ)
singles = index 5 1 ∷ index 2 2 ∷ index 9 3 ∷ index 1 4 ∷ []

abbrev pub in_turn : ℕ → List ℕ
in_turn zero = []
in_turn (suc n) = 0 ∷ 1 ∷ in_turn n

last_merge_runs :
    last_merge ltb singles 4 1 ≡ some (index 1 4 ∷ index 2 2 ∷ index 5 1 ∷ index 9 3 ∷ [])
unfolding last_merge merge_pairs merge merge_loop
last_merge_runs = refl

schedule_runs :
    (schedule insertion 2 2 (in_turn 4) (start 2 3 shuffled)).records
    ≡ index 2 2 ∷ index 5 1 ∷ index 1 4 ∷ index 9 3 ∷ index 3 6 ∷ index 4 5 ∷ []
unfolding schedule start insertion merge_loop find_next_free_block
schedule_runs = refl

fair : (i : ℕ) → i < 2 → 2 * 3 + 2 ≤ turns_of i (in_turn 8)
fair zero h = omega arith
fair (suc zero) h = omega arith
fair (suc (suc i)) h = absurd (omega arith)

phase_completes_example :
    let s = schedule insertion 2 2 (in_turn 8) (start 2 3 shuffled) in
    ((i : ℕ) → i < 2 → s.pc i ≡ at_barrier)
    × HasSortedBlocks ltb 2 3 s.records
    × Perm s.records shuffled
phase_completes_example =
    phase_completes ltb 2 2 3 shuffled insertion-IsQsort (omega arith) (omega arith) (omega arith)
      (omega arith) (omega arith) (in_turn 8) fair
