-- ===== src/Supervisor/Table.antt =====
-- The table of children of Lab3/lab3.c against the processes that run.
use osisp_labs.Common.{
  either_keeps, ℕ, zero, suc, ◌+◌, ◌<◌, ◌≤◌, ◌≡◌, ◌≢◌, refl, ap, ◌∙◌, sym, Bool, true, false, ◌&&◌,
  some, none, Option, List, [], ◌∷◌, ◌++◌, arith, ◌==◌, if◌then◌else◌, get_elem?, set, length,
  length-set, get_elem?-set_ne,
}
use mathlib.Core.List.{append_assoc}
use native.Mathlib.Decide.{ℕ_discrete}
use osisp_labs.Supervisor.{
  Pid, process, minus_one, Signal, sigterm, sigusr1, sigusr2, Effect, kill, wait, spawned, alarm, ℤ,
  pos, negsuc, Parent, Input, max_child, kill_slot, signal_from, ban_all_stats, kill_at, is_child,
  is_digit, is_nonneg, prior_command, signal_command, destroy_all_child_process,
}

-- Does the process run after one more effect, if it did before by `b`?
abbrev pub up_after : ℕ → Bool → Effect → Bool
up_after p b (spawned (process q)) = if q == p then true else b
up_after p b (kill (process q) sigterm) = if q == p then false else b
up_after p b (kill minus_one sigterm) = false
up_after p b _ = b

abbrev pub up : ℕ → Bool → List Effect → Bool
up p b [] = b
up p b (e ∷ es) = up p (up_after p b e) es

-- The table shows the children that run (by `runs`), each once.
pub record IsTable (s : Parent) (runs : ℕ → Bool) : Type 0 where
  pub whole : length s.child_pid_mas ≡ max_child
  pub room : s.children ≤ max_child
  pub filled :
      (i : ℕ)
      → i < s.children
      → (p : ℕ) × (get_elem? s.child_pid_mas i ≡ some (process p)) × (runs p ≡ true)
  pub covered :
      (p : ℕ)
      → runs p ≡ true
      → (i : ℕ) × (i < s.children) × (get_elem? s.child_pid_mas i ≡ some (process p))
  pub distinct :
      (i j p : ℕ)
      → i < s.children
      → j < s.children
      → get_elem? s.child_pid_mas i ≡ some (process p)
      → get_elem? s.child_pid_mas j ≡ some (process p)
      → i ≡ j

-- The calls of `destroyAllChildProcess`, by the table as it was before.
unfoldable pub terminations : List Pid → ℕ → List Effect
terminations pids zero = []
terminations pids (suc i) = kill_slot pids sigterm i ++ (wait ∷ terminations pids i)

kill_slot-set :
    (pids : List Pid) (signal : Signal) (i j : ℕ) (p : Pid)
    → i ≢ j
    → kill_slot (set pids i p) signal j ≡ kill_slot pids signal j
unfolding kill_slot
kill_slot-set pids signal i j p ne =
    ap (λ o. elim o [ none ↦ [] | some q ↦ kill q signal ∷ [] ]) (get_elem?-set_ne pids i j p ne)

terminations-set :
    (pids : List Pid) (i n : ℕ) (p : Pid)
    → n ≤ i
    → terminations (set pids i p) n ≡ terminations pids n
unfolding terminations
terminations-set pids i zero p h = refl
terminations-set pids i (suc n) p h =
    rw (kill_slot-set pids sigterm i n p (omega arith), terminations-set pids i n p (omega arith))

-- A slot that `wait` has overwritten is not read again.
pub destroy_all_lem :
    (status : ℕ → Pid) (pids : List Pid) (n : ℕ)
    → (destroy_all_child_process status pids n).0 ≡ terminations pids n
unfolding destroy_all_child_process terminations
destroy_all_lem status pids zero = refl
destroy_all_lem status pids (suc n) =
    append_assoc (kill_slot pids sigterm n) (wait ∷ [])
      (destroy_all_child_process status (set pids n (status n)) n).0
    ∙ ap (λ es. kill_slot pids sigterm n ++ (wait ∷ es))
        (destroy_all_lem status (set pids n (status n)) n
          ∙ terminations-set pids n n (status n) (omega arith))

pub length-destroy_all :
    (status : ℕ → Pid) (pids : List Pid) (n : ℕ)
    → length (destroy_all_child_process status pids n).1 ≡ length pids
unfolding destroy_all_child_process
length-destroy_all status pids zero = refl
length-destroy_all status pids (suc n) =
    length-destroy_all status (set pids n (status n)) n ∙ length-set pids n (status n)

pub up-append : (p : ℕ) (b : Bool) (es fs : List Effect) → up p b (es ++ fs) ≡ up p (up p b es) fs
up-append p b [] fs = refl
up-append p b (e ∷ es) fs = up-append p (up_after p b e) es fs

abbrev pub signal_all : Signal → Option Pid → List Effect
signal_all signal none = []
signal_all signal (some p) = kill p signal ∷ []

pub kill_slot_cases :
    (pids : List Pid) (signal : Signal) (i : ℕ)
    → kill_slot pids signal i ≡ signal_all signal (get_elem? pids i)
unfolding kill_slot
kill_slot_cases pids signal i = ground arith

-- No signal starts a process.
pub signal_all-false :
    (p : ℕ) (signal : Signal) (o : Option Pid) → up p false (signal_all signal o) ≡ false
signal_all-false p signal none = refl
signal_all-false p sigterm (some (process q)) = ground arith
signal_all-false p sigusr1 (some (process q)) = refl
signal_all-false p sigusr2 (some (process q)) = refl
signal_all-false p sigterm (some minus_one) = refl
signal_all-false p sigusr1 (some minus_one) = refl
signal_all-false p sigusr2 (some minus_one) = refl

-- A signal of the user ends none.
abbrev pub IsUser : Signal → Type 0
IsUser sigterm = ⊥
IsUser sigusr1 = Unit
IsUser sigusr2 = Unit

signal_all_user :
    (p : ℕ) (b : Bool) (signal : Signal) (o : Option Pid)
    → IsUser signal
    → up p b (signal_all signal o) ≡ b
signal_all_user p b signal none h = refl
signal_all_user p b sigterm (some q) h = absurd h
signal_all_user p b sigusr1 (some (process q)) h = refl
signal_all_user p b sigusr1 (some minus_one) h = refl
signal_all_user p b sigusr2 (some (process q)) h = refl
signal_all_user p b sigusr2 (some minus_one) h = refl

kill_slot_user :
    (pids : List Pid) (signal : Signal) (i p : ℕ) (b : Bool)
    → IsUser signal
    → up p b (kill_slot pids signal i) ≡ b
kill_slot_user pids signal i p b h =
    ap (up p b) (kill_slot_cases pids signal i) ∙ signal_all_user p b signal (get_elem? pids i) h

signal_from_user :
    (pids : List Pid) (signal : Signal) (i n p : ℕ) (b : Bool)
    → IsUser signal
    → up p b (signal_from pids signal i n) ≡ b
unfolding signal_from
signal_from_user pids signal i zero p b h = refl
signal_from_user pids signal i (suc n) p b h =
    up-append p b (kill_slot pids signal i) (signal_from pids signal (i + 1) n)
    ∙ ap (λ c. up p c (signal_from pids signal (i + 1) n)) (kill_slot_user pids signal i p b h)
    ∙ signal_from_user pids signal (i + 1) n p b h

kill_at_user :
    (pids : List Pid) (signal : Signal) (n : ℤ) (p : ℕ) (b : Bool)
    → IsUser signal
    → up p b (kill_at pids signal n) ≡ b
unfolding kill_at
kill_at_user pids signal (pos n) p b h = kill_slot_user pids signal n p b h
kill_at_user pids signal (negsuc n) p b h = refl

pub signal_command_user :
    (signal : Signal) (s : Parent) (input : Input) (p : ℕ) (b : Bool)
    → IsUser signal
    → up p b (signal_command signal s input) ≡ b
unfolding signal_command
signal_command_user signal s input p b h =
    either_keeps (λ es. up p b es ≡ b) (is_digit input.second)
      (if is_child input.number s.children then kill_at s.child_pid_mas signal input.number else [])
      (signal_from s.child_pid_mas signal 0 s.children)
      (either_keeps (λ es. up p b es ≡ b) (is_child input.number s.children)
        (kill_at s.child_pid_mas signal input.number) []
        (kill_at_user s.child_pid_mas signal input.number p b h) refl)
      (signal_from_user s.child_pid_mas signal 0 s.children p b h)

pub prior_command_user :
    (s : Parent) (input : Input) (p : ℕ) (b : Bool) → up p b (prior_command s input) ≡ b
unfolding prior_command ban_all_stats
prior_command_user s input p b =
    either_keeps (λ es. up p b es ≡ b) (is_child input.number s.children && is_nonneg input.number)
      (signal_from s.child_pid_mas sigusr2 0 s.children
        ++ (alarm 9 ∷ kill_at s.child_pid_mas sigusr1 input.number))
      []
      (up-append p b (signal_from s.child_pid_mas sigusr2 0 s.children)
          (alarm 9 ∷ kill_at s.child_pid_mas sigusr1 input.number)
        ∙ ap (λ c. up p c (alarm 9 ∷ kill_at s.child_pid_mas sigusr1 input.number))
            (signal_from_user s.child_pid_mas sigusr2 0 s.children p b tt)
        ∙ kill_at_user s.child_pid_mas sigusr1 input.number p b tt)
      refl

pub terminations-false : (pids : List Pid) (n p : ℕ) → up p false (terminations pids n) ≡ false
unfolding terminations
terminations-false pids zero p = refl
terminations-false pids (suc n) p =
    up-append p false (kill_slot pids sigterm n) (wait ∷ terminations pids n)
    ∙ ap (λ c. up p c (terminations pids n))
        (ap (up p false) (kill_slot_cases pids sigterm n)
          ∙ signal_all-false p sigterm (get_elem? pids n))
    ∙ terminations-false pids n p

-- Every process in the first `n` slots is ended.
pub terminations_end :
    (pids : List Pid) (n p i : ℕ) (b : Bool)
    → i < n
    → get_elem? pids i ≡ some (process p)
    → up p b (terminations pids n) ≡ false
unfolding terminations
terminations_end pids zero p i b h e = absurd (omega arith)
terminations_end pids (suc n) p i b h e =
    up-append p b (kill_slot pids sigterm n) (wait ∷ terminations pids n) ∙ elim (ℕ_discrete i n) [
      | yes last ↦
          ap (λ c. up p c (terminations pids n))
            (ap (up p b) (
                kill_slot_cases pids sigterm n
                ∙ ap (signal_all sigterm) (ap (get_elem? pids) (sym last) ∙ e))
              ∙ ground arith)
          ∙ terminations-false pids n p
      | no other ↦ terminations_end pids n p i (up p b (kill_slot pids sigterm n)) (omega arith) e
    ]
