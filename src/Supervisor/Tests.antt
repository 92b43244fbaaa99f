-- ===== src/Supervisor/Tests.antt =====
-- Sessions of Lab3/lab3.c with one or two children, and the theorems at them.
use osisp_labs.Common.{
  some, List, get_elem?, ℕ, ◌≡◌, refl, true, false, inl, [], ◌∷◌, arith, replicate,
}
use osisp_labs.Supervisor.{
  process, minus_one, sigterm, sigusr1, sigusr2, kill, wait, alarm, pos, Parent, Input, step,
  Effect, on_sigint,
}
use osisp_labs.Supervisor.Table.{IsTable, up}
use osisp_labs.Supervisor.Interrupts.{moments, interrupted_minus}
use osisp_labs.Supervisor.Session.{step-IsTable, step_ends_all}

abbrev empty : Parent
empty = record { children = 0; child_pid_mas = replicate 50 minus_one }

abbrev pub two : Parent
two = record { children = 2; child_pid_mas = process 100 ∷ process 101 ∷ replicate 48 minus_one }

abbrev pub enter : ℕ → Input
enter c = record {
  symbol = c;
  second = b'1';
  number = pos 1;
  forked = process 100;
  status = λ _. process 0;
}

-- 'p1' bans both children and allows the second.
prior_runs :
    (step two (enter b'p')).0
    ≡ kill (process 100) sigusr2
      ∷ kill (process 101) sigusr2
      ∷ alarm 9
      ∷ kill (process 101) sigusr1
      ∷ []
unfolding step
prior_runs = refl

quit_runs :
    (step two (enter b'q')).0
    ≡ kill (process 101) sigterm ∷ wait ∷ kill (process 100) sigterm ∷ wait ∷ wait ∷ []
unfolding step
quit_runs = refl

empty-IsTable : IsTable empty (λ _. false)
empty-IsTable = record {
  whole = refl;
  room = omega arith;
  filled = λ i h. absurd (omega arith);
  covered = λ p e. absurd (cc);
  distinct = λ i j p hi hj ei ej. absurd (omega arith);
}

step-IsTable_example :
    IsTable (step empty (enter b'+')).1 (λ p. up p false (step empty (enter b'+')).0)
step-IsTable_example =
    step-IsTable {runs = λ _. false} empty-IsTable (enter b'+')
      (λ _. (100, refl, refl, omega arith)) (λ e. absurd (omega arith))

one-IsTable : IsTable (step empty (enter b'+')).1 (λ p. up p false (step empty (enter b'+')).0)
one-IsTable =
    step-IsTable {runs = λ _. false} empty-IsTable (enter b'+')
      (λ _. (100, refl, refl, omega arith)) (λ e. absurd (omega arith))

step_ends_all_example : up 100 true (step (step empty (enter b'+')).1 (enter b'k')).0 ≡ false
unfolding step
step_ends_all_example = step_ends_all one-IsTable (enter b'k') (inl refl) 100

interrupted_minus_example :
    (t : Parent) × (get_elem? (moments two (enter b'-')) 0 ≡ some t)
    × (rest : List Effect) × (on_sigint (λ _. process 0) t ≡ kill (process 0) sigterm ∷ rest)
interrupted_minus_example =
    interrupted_minus two (enter b'-') 1 (λ _. process 0) refl refl (omega arith)
