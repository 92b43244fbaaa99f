-- ===== src/Statistics/Counts.antt =====
-- What the counters of Lab3/child.c say, in every order of stores and signals.
use osisp_labs.Common.{
  ℕ, ◌+◌, ◌<◌, ◌≤◌, ◌≡◌, refl, ap, Bool, true, false, List, [], ◌∷◌, ◌++◌, arith, Bool-cases, ltb,
  ◌&&◌, inl, inr,
}
use osisp_labs.Statistics.{
  Pc, zero_first, zero_second, one_first, one_second, test, printing, reset_one_zero,
  reset_zero_one, reset_one_one, reset_zero_zero, reset_times, Child, Line, Event, main_step,
  sigalrm, sigusr1, sigusr2, start, step, advance_by,
}

-- The counters are not being reset.
abbrev pub is_counting : Pc → Bool
is_counting zero_first = true
is_counting zero_second = true
is_counting one_first = true
is_counting one_second = true
is_counting test = true
is_counting printing = true
is_counting _ = false

abbrev pub samples : Child → ℕ
samples c = c.zero_zero + c.one_one + c.zero_one + c.one_zero

abbrev pub shown : Line → ℕ
shown l = l.shown_zero_zero + l.shown_one_one + l.shown_zero_one + l.shown_one_zero

pub record Inv (c : Child) : Type 0 where
  pub first_bit : c.first ≤ 1
  pub second_bit : c.second ≤ 1
  -- every tick has been counted as one of the four pairs
  pub counted : is_counting c.pc ≡ true → c.count_times ≤ samples c
  -- who has passed the test has samples enough
  pub due : c.pc ≡ printing → 101 < c.count_times

abbrev pub All : (Line → Type 0) → List Line → Type 0
All P [] = Unit
All P (l ∷ ls) = P l × All P ls

All-append : (P : Line → Type 0) (xs ys : List Line) → All P xs → All P ys → All P (xs ++ ys)
All-append P [] ys hx hy = hy
All-append P (x ∷ xs) ys hx hy = (hx.0, All-append P xs ys hx.1 hy)

start-Inv : Inv start
unfolding start
start-Inv = ground arith

module _ (c : Child) (v : Inv c) where
  abbrev Good : Child × List Line → Type 0
  Good r = Inv r.0 × All (λ l. 101 < shown l) r.1

  test-Inv : c.pc ≡ test → Good (advance_by test c)
  unfolding advance_by
  test-Inv e = elim (Bool-cases (ltb 101 c.count_times && c.permission_output)) [
    | inl passed ↦ rw passed (ground (arith, passed), tt)
    | inr idle ↦ rw idle (ground arith, tt)
  ]

  advance_by-Inv : (p : Pc) → c.pc ≡ p → Good (advance_by p c)
  unfolding advance_by
  advance_by-Inv zero_first e = (ground arith, tt)
  advance_by-Inv zero_second e = (ground arith, tt)
  advance_by-Inv one_first e = (ground arith, tt)
  advance_by-Inv one_second e = (ground arith, tt)
  advance_by-Inv test e = test-Inv e
  advance_by-Inv printing e =
      (ground arith, (omega (arith, v.counted (ap is_counting e), v.due e), tt))
  advance_by-Inv reset_one_zero e = (ground arith, tt)
  advance_by-Inv reset_zero_one e = (ground arith, tt)
  advance_by-Inv reset_one_one e = (ground arith, tt)
  advance_by-Inv reset_zero_zero e = (ground arith, tt)
  advance_by-Inv reset_times e = (ground arith, tt)

-- If every tick has been counted as one of the four pairs, each step keeps it so, and prints only
-- lines of more than 101 samples.
pub step-Inv :
    (c : Child) (e : Event) → Inv c → Inv (step c e).0 × All (λ l. 101 < shown l) (step c e).1
unfolding step
step-Inv c main_step v = advance_by-Inv c v c.pc refl
step-Inv c sigalrm v = (ground arith, tt)
step-Inv c sigusr1 v = (ground arith, tt)
step-Inv c sigusr2 v = (ground arith, tt)

unfoldable pub run : Child → List Event → List Line
run c [] = []
run c (e ∷ es) = (step c e).1 ++ run (step c e).0 es

run_from_lines : (c : Child) (es : List Event) → Inv c → All (λ l. 101 < shown l) (run c es)
unfolding run
run_from_lines c [] v = tt
run_from_lines c (e ∷ es) v =
    let (v', lines) = step-Inv c e v in
    All-append (λ l. 101 < shown l) (step c e).1 (run (step c e).0 es) lines
      (run_from_lines (step c e).0 es v')

-- Every line of every run from the start shows more than 101 samples.
pub run_lines : (es : List Event) → All (λ l. 101 < shown l) (run start es)
run_lines es = run_from_lines start es start-Inv
