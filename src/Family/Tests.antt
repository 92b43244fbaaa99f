-- ===== src/Family/Tests.antt =====
-- A family of Lab3 with two children, and the theorems at it.
use osisp_labs.Common.{◌≡◌, refl, true, false, List, [], ◌∷◌, arith}
use osisp_labs.Supervisor.{process, sigusr1, sigusr2, kill, alarm, prior_command}
use osisp_labs.Supervisor.Tests.{two, enter}
use osisp_labs.Statistics.{start}
use osisp_labs.Family.{
  Process, Processes, Happening, calls, moves, works, ticks, takes_usr1, takes_usr2, run, calls_of,
}
use osisp_labs.Family.Quiet.{is_printing}
use osisp_labs.Family.Prior.{prints, only_target_prints}

abbrev fresh : Process
fresh = record { alive = true; usr1 = false; usr2 = false; child = start }

abbrev family : Processes
family = λ _. fresh

-- The first child takes its ban between the calls.
abbrev prior : List Happening
prior =
    calls (kill (process 100) sigusr2)
    ∷ moves 100 works
    ∷ moves 100 takes_usr2
    ∷ calls (kill (process 101) sigusr2)
    ∷ moves 101 ticks
    ∷ calls (alarm 9)
    ∷ calls (kill (process 101) sigusr1)
    ∷ []

abbrev later : List Happening
later = moves 101 takes_usr1 ∷ moves 100 ticks ∷ moves 100 works ∷ moves 101 works ∷ []

prior_made : calls_of prior ≡ prior_command two (enter b'p')
unfolding calls_of prior_command
prior_made = refl

ban_taken : ((run family prior).0 100).usr2 ≡ false
unfolding run
ban_taken = refl

not_printing : is_printing ((run family prior).0 100).child.pc ≡ false
unfolding run start
not_printing = refl

no_calls : calls_of later ≡ []
unfolding calls_of
no_calls = refl

only_target_prints_example : prints 100 (run (run family prior).0 later).1 ≡ false
only_target_prints_example =
    only_target_prints two (enter b'p') 1 101 refl (omega arith) refl 0 100 family prior later
      (omega arith) refl (λ e. absurd (omega (arith, e))) refl prior_made ban_taken not_printing
      no_calls
