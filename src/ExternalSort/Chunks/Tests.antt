-- ===== src/ExternalSort/Chunks/Tests.antt =====
-- The loop over chunks of Lab6/main.c on a log of the records where the chunks begin.
use osisp_labs.Common.{ℕ, ◌%◌, ◌≡◌, ◌≢◌, refl, some, List, [], ◌∷◌, arith}
use osisp_labs.ExternalSort.Chunks.{check_arguments, chunk_loop}

abbrev log : ℕ → List ℕ → List ℕ
log start starts = start ∷ starts

three_runs : chunk_loop log 4 12 9 0 [] ≡ some (8 ∷ 4 ∷ 0 ∷ [])
unfolding chunk_loop
three_runs = refl

-- 12 records behind a header, chunks of 4 records in 2 blocks
check_runs : check_arguments 4 2 208 ≡ some (2, 32)
unfolding check_arguments
check_runs = refl

five : (12 % 5) ≢ 0
five e = absurd (omega (arith, e))
