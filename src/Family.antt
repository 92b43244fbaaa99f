-- ===== src/Family.antt =====
-- Lab3/lab3.c and Lab3/child.c together: the signals that the parent sends wait at a child until it
-- takes them, and the children run in any order between the calls of the parent. A signal that
-- already waits at a process is not queued a second time.
pub mod Prior
pub mod Arrivals
pub mod Target
pub mod Quiet
mod Tests
use osisp_labs.Common.{
  ℕ, Bool, true, false, ◌&&◌, Option, none, some, List, [], ◌∷◌, ◌++◌, map, ◌==◌, if◌then◌else◌,
}
use osisp_labs.Supervisor.{Pid, process, minus_one, Signal, sigterm, sigusr1, sigusr2, Effect, kill}
use osisp_labs.Statistics
use osisp_labs.Statistics.{Child, Line, Event, main_step, sigalrm}

-- A child: does it run, which signals wait at it, and its variables?
pub record Process : Type 0 where
  pub alive : Bool
  pub usr1 : Bool
  pub usr2 : Bool
  pub child : Child

-- A signal arrives.
abbrev pub arrived : Process → Signal → Process
arrived x sigterm = record x { alive = false }
arrived x sigusr1 = record x { usr1 = true }
arrived x sigusr2 = record x { usr2 = true }

-- What a call of the parent makes of the process with this pid.
abbrev pub receive : ℕ → Process → Effect → Process
receive p x (kill (process q) signal) = if q == p then arrived x signal else x
receive p x (kill minus_one signal) = arrived x signal
receive p x _ = x

-- What a child does next: a step of its loop, a tick of its timer, or it takes a signal that waits.
pub data Move : Type 0 where
  works ticks takes_usr1 takes_usr2 : Move

abbrev idle : Process → Process × List Line
idle x = (x, [])

abbrev with_child : Process → Child × List Line → Process × List Line
with_child x r = (record x { child = r.0 }, r.1)

-- A dead child does nothing.
unfoldable pub move : Process → Move → Process × List Line
unfolding Statistics.step
move x works = if x.alive then with_child x (Statistics.step x.child main_step) else idle x
move x ticks = if x.alive then with_child x (Statistics.step x.child sigalrm) else idle x
move x takes_usr1 =
    if x.alive && x.usr1
    then with_child (record x { usr1 = false }) (Statistics.step x.child Event.sigusr1)
    else idle x
move x takes_usr2 =
    if x.alive && x.usr2
    then with_child (record x { usr2 = false }) (Statistics.step x.child Event.sigusr2)
    else idle x

-- An event of the family: a call of the parent, or a move of the child with this pid.
pub data Happening : Type 0 where
  calls : Effect → Happening
  moves : ℕ → Move → Happening

abbrev pub Processes : Type 0
Processes = ℕ → Process

abbrev pub with_process : Processes → ℕ → Process → Processes
with_process f p x = λ q. if q == p then x else f q

unfoldable pub happen : Processes → Happening → Processes × List (ℕ × Line)
unfolding move
happen f (calls effect) = ((λ p. receive p (f p) effect), [])
happen f (moves p m) = (with_process f p (move (f p) m).0, map (λ l. (p, l)) (move (f p) m).1)

-- A run: the processes behind it, and the lines with the pids of those that printed them.
unfoldable pub run : Processes → List Happening → Processes × List (ℕ × Line)
unfolding happen
run f [] = (f, [])
run f (h ∷ hs) = let (g, lines) = happen f h in let rest = run g hs in (rest.0, lines ++ rest.1)

-- The calls of the parent in a run.
unfoldable pub calls_of : List Happening → List Effect
calls_of [] = []
calls_of (calls effect ∷ hs) = effect ∷ calls_of hs
calls_of (moves p m ∷ hs) = calls_of hs
