-- ===== src/Supervisor.antt =====
-- Lab3/lab3.c: the parent process that starts, stops and signals its children by commands from
-- the standard input. A function gives the system calls that it makes, in order, beside the new
-- state. `childCount` is -1 without children; `children` is `childCount + 1`.
pub mod Signals
pub mod Table
pub mod Spawned
pub mod Session
pub mod Children
pub mod Interrupts
pub mod Tests
use osisp_labs.Common.{
  ℕ, zero, suc, ◌+◌, ◌-◌, ◌<◌, Bool, true, false, ◌&&◌, Option, none, some, List, [], ◌∷◌, ◌++◌,
  ltb, leb, ◌==◌, if◌then◌else◌, get_elem?, set,
}

-- A `pid_t` in the table: what `fork` gives for a child, or -1.
pub data Pid : Type 0 where
  process : ℕ → Pid
  minus_one : Pid

pub data Signal : Type 0 where
  sigterm sigusr1 sigusr2 : Signal

pub data Effect : Type 0 where
  kill : Pid → Signal → Effect
  wait : Effect
  spawned : Pid → Effect
  alarm : ℕ → Effect  -- `setTimeTimer`, after the handler is set
  listed : List Pid → Effect  -- what `listProcesses` prints

-- `atoi` of a line: an `int`.
pub data ℤ : Type 0 where
  pos : ℕ → ℤ
  negsuc : ℕ → ℤ

pub record Parent : Type 0 where
  pub children : ℕ
  pub child_pid_mas : List Pid

abbrev pub max_child : ℕ
max_child = 50

-- `kill(childPidMas[i], signal)`; a read outside the array has no pid to signal.
unfoldable pub kill_slot : List Pid → Signal → ℕ → List Effect
kill_slot pids signal i = elim (get_elem? pids i) [ none ↦ [] | some p ↦ kill p signal ∷ [] ]

-- `callChild`, in the parent: `chpid` is what `fork` gave.
unfoldable pub call_child : Pid → List Pid → ℕ → List Effect × List Pid
call_child chpid pids child_count = (spawned chpid ∷ [], set pids child_count chpid)

-- `destroyChildProcess` for the number of children, the index plus one. `wait` stores the status
-- of the child in its slot.
unfoldable pub destroy_child_process : (ℕ → Pid) → List Pid → ℕ → Bool × List Effect × List Pid
unfolding kill_slot
destroy_child_process status pids zero = (false, [], pids)
destroy_child_process status pids (suc i) =
    (true, kill_slot pids sigterm i ++ (wait ∷ []), set pids i (status i))

-- `destroyAllChildProcess`: the loop runs down to the first child.
unfoldable pub destroy_all_child_process : (ℕ → Pid) → List Pid → ℕ → List Effect × List Pid
unfolding destroy_child_process
destroy_all_child_process status pids zero = ([], pids)
destroy_all_child_process status pids (suc i) =
    let (_, effects, pids') = destroy_child_process status pids (suc i) in
    let rest = destroy_all_child_process status pids' i in (effects ++ rest.0, rest.1)

-- The loop of `listProcesses` from slot `i` on, with `rounds` left.
unfoldable pub listed_from : List Pid → ℕ → ℕ → List Pid
listed_from pids i zero = []
listed_from pids i (suc rounds) =
    elim (get_elem? pids i) [ none ↦ [] | some p ↦ p ∷ [] ] ++ listed_from pids (i + 1) rounds

-- `listProcesses`
unfoldable pub list_processes : List Pid → ℕ → List Effect
unfolding listed_from
list_processes pids children = listed (listed_from pids 0 children) ∷ []

-- The loops of `allowAllStats` and `banAllStats` from slot `i` on, with `rounds` left.
unfoldable pub signal_from : List Pid → Signal → ℕ → ℕ → List Effect
unfolding kill_slot
signal_from pids signal i zero = []
signal_from pids signal i (suc rounds) =
    kill_slot pids signal i ++ signal_from pids signal (i + 1) rounds

unfoldable pub allow_all_stats : List Pid → ℕ → List Effect
unfolding signal_from
allow_all_stats pids children = signal_from pids sigusr1 0 children

unfoldable pub ban_all_stats : List Pid → ℕ → List Effect
unfolding signal_from
ban_all_stats pids children = signal_from pids sigusr2 0 children

-- `allowAllChildSendStats`, the handler of SIGALRM
unfoldable pub on_sigalrm : Parent → List Effect
unfolding allow_all_stats
on_sigalrm s = allow_all_stats s.child_pid_mas s.children

-- `handlerSIGINT`; then the process exits.
unfoldable pub on_sigint : (ℕ → Pid) → Parent → List Effect
unfolding destroy_all_child_process
on_sigint status s = (destroy_all_child_process status s.child_pid_mas s.children).0 ++ (wait ∷ [])

-- `n <= childCount`
abbrev pub is_child : ℤ → ℕ → Bool
is_child (pos n) children = ltb n children
is_child (negsuc n) children = true

-- `kill(childPidMas[n], signal)` for an `int`; a negative index is outside the array.
unfoldable pub kill_at : List Pid → Signal → ℤ → List Effect
unfolding kill_slot
kill_at pids signal (pos n) = kill_slot pids signal n
kill_at pids signal (negsuc n) = []

abbrev pub is_nonneg : ℤ → Bool
is_nonneg (pos n) = true
is_nonneg (negsuc n) = false

-- `symbols[1] >= '0' && symbols[1] <= '9'`
abbrev pub is_digit : ℕ → Bool
is_digit c = leb b'0' c && leb c b'9'

-- What one round of the loop reads: the two first characters, `atoi(symbols + 1)`, and what the
-- system gives to `fork` and `wait`.
pub record Input : Type 0 where
  pub symbol : ℕ
  pub second : ℕ
  pub number : ℤ
  pub forked : Pid
  pub status : ℕ → Pid

-- The cases 's' and 'g': one child if a number follows, else all.
unfoldable pub signal_command : Signal → Parent → Input → List Effect
unfolding kill_at signal_from
signal_command signal s input =
    if is_digit input.second
    then (if is_child input.number s.children
        then kill_at s.child_pid_mas signal input.number
        else [])
    else signal_from s.child_pid_mas signal 0 s.children

-- The case 'p'.
unfoldable pub prior_command : Parent → Input → List Effect
unfolding ban_all_stats kill_at
prior_command s input =
    if is_child input.number s.children && is_nonneg input.number
    then ban_all_stats s.child_pid_mas s.children
      ++ (alarm 9 ∷ kill_at s.child_pid_mas sigusr1 input.number)
    else []

-- One round of the loop of `main`: the effects, the new state, and whether the loop goes on.
unfoldable pub step : Parent → Input → List Effect × Parent × Bool
unfolding call_child destroy_child_process destroy_all_child_process signal_command prior_command
    list_processes
step s input =
    if input.symbol == b'+'
    then (
      spawned input.forked ∷ [],
      record s {
        children = s.children + 1;
        child_pid_mas = (call_child input.forked s.child_pid_mas s.children).1;
      },
      true,
    )
    else if input.symbol == b'-'
    then (
      (destroy_child_process input.status s.child_pid_mas s.children).1,
      record s {
        children = s.children - 1;
        child_pid_mas = (destroy_child_process input.status s.child_pid_mas s.children).2;
      },
      true,
    )
    else if input.symbol == b'l'
    then (list_processes s.child_pid_mas s.children, s, true)
    else if input.symbol == b'k'
    then (
      (destroy_all_child_process input.status s.child_pid_mas s.children).0,
      record {
        children = 0;
        child_pid_mas = (destroy_all_child_process input.status s.child_pid_mas s.children).1;
      },
      true,
    )
    else if input.symbol == b'q'
    then (
      (destroy_all_child_process input.status s.child_pid_mas s.children).0 ++ (wait ∷ []),
      record s {
        child_pid_mas = (destroy_all_child_process input.status s.child_pid_mas s.children).1;
      },
      false,
    )
    else if input.symbol == b's'
    then (signal_command sigusr2 s input, s, true)
    else if input.symbol == b'g'
    then (signal_command sigusr1 s input, s, true)
    else if input.symbol == b'p'
    then (prior_command s input, s, true)
    else ([], s, true)
