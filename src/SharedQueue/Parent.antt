-- ===== src/SharedQueue/Parent.antt =====
-- The parent process of Lab4/lab4Main.c: the tables of producers and consumers, and the commands.
-- `prodCount` and `consCount` are one less than the numbers here. `none` is a write behind a table.
pub mod Tables
use osisp_labs.Common.{
  ℕ, zero, suc, ◌+◌, Bool, true, false, not, Option, none, some, List, [], ◌∷◌, ◌++◌, ltb, ◌==◌,
  if◌then◌else◌, get_elem?, get_or, set, length,
}

-- What `fork` gives in the parent.
pub data Pid : Type 0 where
  child : ℕ → Pid
  minus_one : Pid

abbrev pub max_child : ℕ
max_child = 20

pub record Pool : Type 0 where
  pub count : ℕ
  pub pid_mas : List Pid

pub record Parent : Type 0 where
  pub producers : Pool
  pub consumers : Pool

-- `kill(pid, SIGUSR1)`
pub data Effect : Type 0 where
  kill_usr1 : Pid → Effect

-- `++prodCount; createProducer()`, and the same for consumers.
unfoldable pub create : Pid → Pool → Option Pool
create chpid p =
    if ltb p.count max_child
    then some (record { count = p.count + 1; pid_mas = set p.pid_mas p.count chpid })
    else none

abbrev pub signalled : Option Pid → List Effect
signalled none = []
signalled (some p) = kill_usr1 p ∷ []

-- `destroyChildProcess`, and `--prodCount` if it gives true.
unfoldable pub destroy_child_process : ℕ → List Pid → Pool × List Effect
destroy_child_process zero pids = (record { count = 0; pid_mas = pids }, [])
destroy_child_process (suc i) pids =
    (record { count = i; pid_mas = pids }, signalled (get_elem? pids i))

-- The branch of one letter, for the second character.
unfoldable pub pool_command : ℕ → Pid → Pool → Option (Pool × List Effect)
unfolding create destroy_child_process
pool_command c chpid p =
    if c == b'+'
    then elim (create chpid p) [ none ↦ none | some q ↦ some (q, []) ]
    else if c == b'-'
    then some (destroy_child_process p.count p.pid_mas)
    else some (p, [])

abbrev with_producers : Parent → Option (Pool × List Effect) → Option (Parent × List Effect)
with_producers s none = none
with_producers s (some (q, effects)) = some (record s { producers = q }, effects)

abbrev with_consumers : Parent → Option (Pool × List Effect) → Option (Parent × List Effect)
with_consumers s none = none
with_consumers s (some (q, effects)) = some (record s { consumers = q }, effects)

-- A round of the loop of `main`, for the first two characters of a line and what `fork` gives.
unfoldable pub main_step : ℕ → ℕ → Pid → Parent → Option (Parent × List Effect)
unfolding pool_command
main_step first second chpid s =
    if first == b'p'
    then with_producers s (pool_command second chpid s.producers)
    else if first == b'c'
    then with_consumers s (pool_command second chpid s.consumers)
    else some (s, [])

abbrev with_effects : List Effect → Option (Parent × List Effect) → Option (Parent × List Effect)
with_effects effects none = none
with_effects effects (some (s, more)) = some (s, effects ++ more)

-- The rounds up to 'q', with all signals sent; at 'q' none is sent.
unfoldable pub main : List (ℕ × ℕ × Pid) → Parent → Option (Parent × List Effect)
unfolding main_step
main [] s = some (s, [])
main ((first, second, chpid) ∷ rounds) s = elim (main_step first second chpid s) [
  | none ↦ none
  | some (s2, effects) ↦ elim (first == b'q') [
    | true ↦ some (s2, effects)
    | false ↦ with_effects effects (main rounds s2)
  ]
]
