-- ===== src/Statistics/Tests.antt =====
-- Runs of Lab3/child.c, and the theorem about a step at a child that is about to print.
use osisp_labs.Common.{ℕ, zero, suc, List, ◌++◌, ◌<◌, ◌≡◌, refl, true, [], ◌∷◌}
use osisp_labs.Statistics.{Event, Line, test, Child, main_step, sigalrm, start, step}
use osisp_labs.Statistics.Counts.{All, shown, run_lines, run}

abbrev full : Child
full = record {
  pc = test;
  first = 1;
  second = 1;
  count_times = 102;
  zero_zero = 50;
  one_one = 40;
  zero_one = 2;
  one_zero = 10;
  permission_output = true;
}

-- A signal between the two stores of `pair = ONE` finds a mixed pair.
mixed : (step (step (step (step start main_step).0 main_step).0 main_step).0 sigalrm).0.one_zero ≡ 1
unfolding step start
mixed = refl

abbrev times : ℕ → Event → List Event
times zero e = []
times (suc n) e = e ∷ times n e

-- The loop comes to its test, the timer ticks 102 times, and the loop prints.
abbrev until_output : List Event
until_output = times 4 main_step ++ (times 102 sigalrm ++ (main_step ∷ main_step ∷ []))

abbrev only_ones : Line
only_ones = record {
  shown_zero_zero = 0;
  shown_one_one = 102;
  shown_zero_one = 0;
  shown_one_zero = 0;
}

one_line : run start until_output ≡ only_ones ∷ []
unfolding run start step
one_line = refl

run_lines_example : All (λ l. 101 < shown l) (only_ones ∷ [])
unfolding run start step
run_lines_example = run_lines until_output
