-- ===== src/IndexFile/Tests.antt =====
-- Runs of the three programs on an index file of Lab6, with marks that are whole numbers.
use mathlib.Core.List.{Perm}
use osisp_labs.Common.{
  done, undefined, then_run, ℕ, ◌+◌, ◌*◌, ◌%◌, ◌^◌, ◌≡◌, refl, some, List, [], ◌∷◌, arith, ltb,
}
use osisp_labs.ExternalSort.{Index}
use osisp_labs.ExternalSort.Order.{IsSorted}
use osisp_labs.ExternalSort.Main.{sort_file}
use osisp_labs.ExternalSort.Tests.{index, insertion, insertion-IsQsort, ltb-IsOrder}
use osisp_labs.ExternalSort.Main.Tests.{by_chunk, by_round, fair}
use osisp_labs.IndexFile.{random_records, create_index_file, read_binary_file, sort_bytes}
use osisp_labs.IndexFile.Written.{IsWord}
use osisp_labs.IndexFile.Pipeline.{read-create, pipeline-IsSorted}

-- A generator, and marks in hours.
abbrev rand : ℕ → ℕ
rand i = (7 * i + 5) % 11

abbrev mark : ℕ → ℕ → ℕ
mark day hour = (24 * day + hour) % 2 ^ 64

mark-IsWord : (d h : ℕ) → IsWord (mark d h)
mark-IsWord d h = omega arith

create_runs : random_records rand mark 0 3 ≡ index 121 1 ∷ index 196 2 ∷ index 7 3 ∷ []
unfolding random_records
create_runs = refl

-- A file that is shorter than a header.
short_file : read_binary_file (some 0) (3 ∷ 0 ∷ []) ≡ undefined
unfolding read_binary_file
short_file = refl

read-create_example :
    then_run (create_index_file rand mark (some 4096) 3) (read_binary_file (some 8192))
    ≡ done (3, random_records rand mark 0 3)
read-create_example = read-create rand mark 4096 8192 3 mark-IsWord (omega arith) (omega arith)

pipeline-IsSorted_example :
    (ys : List (Index ℕ)) × (then_run
        (then_run
          (create_index_file rand mark (some 4096) 8)
          (sort_bytes (sort_file ltb insertion 2 by_chunk by_round 4 2 (2 ^ 1))))
        (read_binary_file (some 8192))
      ≡ done (8, ys))
    × IsSorted ltb ys
    × Perm ys (random_records rand mark 0 8)
pipeline-IsSorted_example =
    pipeline-IsSorted rand mark ltb insertion 2 1 1 2 by_chunk by_round 4 2 8 4096 8192 mark-IsWord
      (omega arith) ltb-IsOrder insertion-IsQsort (omega arith) (omega arith) (omega arith) refl
      fair (omega arith) (omega arith) refl (omega arith) (omega arith)
