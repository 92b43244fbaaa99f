-- ===== src/Commands/Tests.antt =====
-- A session of Lab5/lab5_2.c, and the theorem at it.
use osisp_labs.Common.{ℕ, ◌≡◌, refl, arith, List, [], ◌∷◌, inl, inr, some, replicate}
use osisp_labs.Commands.{started, cancelled, nobody, info, Threads, Input, step}
use osisp_labs.Commands.Stacks.{view}
use osisp_labs.Commands.Pools.{IsTables, run, stack_run, run_stacks}

abbrev no_threads : Threads
no_threads = record {
  producers = 0;
  consumers = 0;
  prod_id_mas = replicate 20 0;
  cons_id_mas = replicate 20 0;
}

abbrev enter : ℕ → ℕ → Input
enter c d = record { symbol = c; second = d; created = some 7 }

-- Two producers, one cancelled; a consumer cannot be cancelled, since there is none.
abbrev session : List Input
session =
    enter b'p' b'+'
    ∷ record (enter b'p' b'+') { created = some 8 }
    ∷ enter b'p' b'-'
    ∷ enter b'c' b'-'
    ∷ enter b'i' 10
    ∷ enter b'q' 10
    ∷ enter b'p' b'-'
    ∷ []

session_runs : run no_threads session ≡ started 7 ∷ started 8 ∷ cancelled 8 ∷ nobody ∷ info 1 0 ∷ []
unfolding run step
session_runs = refl

no_threads-IsTables : IsTables no_threads
no_threads-IsTables = record { prod_slots = refl; cons_slots = refl }

run_stacks_example :
    run no_threads (enter b'p' b'+' ∷ enter b'p' b'-' ∷ [])
    ≡ stack_run (view no_threads) (enter b'p' b'+' ∷ enter b'p' b'-' ∷ [])
run_stacks_example =
    run_stacks (enter b'p' b'+' ∷ enter b'p' b'-' ∷ []) no_threads-IsTables
      (inr (inr (omega arith, omega arith, (7, refl))), (inr (inl (λ e. absurd (omega arith))), tt))
