-- ===== src/Supervisor/Interrupts.antt =====
-- The handlers of Lab3/lab3.c, which may run between any two statements of a round of its loop.
use mathlib.Core.List.{append-nil, append_assoc}
use osisp_labs.Common.{
  ℕ, zero, suc, ◌+◌, ◌-◌, ◌<◌, ◌≡◌, refl, ap, ◌∙◌, sym, Bool, true, false, inl, inr, some, List, [],
  ◌∷◌, ◌++◌, map, arith, ◌==◌, if◌then◌else◌, Bool-cases, get_elem?, set, length,
  get_elem?-set_self,
}
use osisp_labs.Supervisor.{
  Pid, process, Signal, sigterm, sigusr1, Effect, kill, wait, alarm, pos, Parent, Input, kill_slot,
  signal_from, allow_all_stats, ban_all_stats, on_sigalrm, on_sigint, kill_at,
  destroy_child_process, destroy_all_child_process, step,
}
use osisp_labs.Supervisor.Table.{up, up-append, IsTable, destroy_all_lem, terminations}
use osisp_labs.Supervisor.Spawned.{all_ended}
use osisp_labs.Supervisor.Signals.{permission, permission-append, allow_from, kill_slot_lem}

-- In a right table, SIGINT ends every child.
pub on_sigint_ends_all :
    {s : Parent} {runs : ℕ → Bool}
    → IsTable s runs
    → (status : ℕ → Pid) (p : ℕ) → up p (runs p) (on_sigint status s) ≡ false
unfolding on_sigint
on_sigint_ends_all {s} {runs} t status p =
    up-append p (runs p) (destroy_all_child_process status s.child_pid_mas s.children).0 (wait ∷ [])
    ∙ ap (up p (runs p)) (destroy_all_lem status s.child_pid_mas s.children)
    ∙ all_ended t status p

-- The tables that `destroyAllChildProcess` goes through.
unfoldable destroy_moments : (ℕ → Pid) → List Pid → ℕ → List (List Pid)
destroy_moments status pids zero = []
destroy_moments status pids (suc i) =
    set pids i (status i) ∷ destroy_moments status (set pids i (status i)) i

-- The states that a handler may find during '-'.
abbrev minus_moments : (ℕ → Pid) → List Pid → ℕ → List Parent
minus_moments status pids zero = []
minus_moments status pids (suc i) =
    record { children = suc i; child_pid_mas = set pids i (status i) }
    ∷ record { children = i; child_pid_mas = set pids i (status i) }
    ∷ []

abbrev at_table : ℕ → List Pid → Parent
at_table n pids = record { children = n; child_pid_mas = pids }

-- The states that a handler may find during a round, behind the one before it.
unfoldable pub moments : Parent → Input → List Parent
unfolding destroy_moments
moments s input =
    if input.symbol == b'+'
    then at_table (s.children + 1) s.child_pid_mas
      ∷ at_table (s.children + 1) (set s.child_pid_mas s.children input.forked)
      ∷ []
    else if input.symbol == b'-'
    then minus_moments input.status s.child_pid_mas s.children
    else if input.symbol == b'k'
    then map (at_table s.children) (destroy_moments input.status s.child_pid_mas s.children)
      ++ (at_table 0 (destroy_all_child_process input.status s.child_pid_mas s.children).1 ∷ [])
    else if input.symbol == b'q'
    then map (at_table s.children) (destroy_moments input.status s.child_pid_mas s.children)
    else []

abbrev last_of : Parent → List Parent → Parent
last_of s [] = s
last_of s (t ∷ ts) = last_of t ts

last_of-append : (s t : Parent) (ts : List Parent) → last_of s (ts ++ (t ∷ [])) ≡ t
last_of-append s t [] = refl
last_of-append s t (u ∷ ts) = last_of-append u t ts

last_of-destroy_moments :
    (status : ℕ → Pid) (pids : List Pid) (n m : ℕ)
    → last_of (at_table m pids) (map (at_table m) (destroy_moments status pids n))
      ≡ at_table m (destroy_all_child_process status pids n).1
unfolding destroy_moments destroy_all_child_process
last_of-destroy_moments status pids zero m = refl
last_of-destroy_moments status pids (suc i) m =
    last_of-destroy_moments status (set pids i (status i)) i m

same_if :
    (s : Parent) (c : Bool) (es : List Effect) (y : List Effect × Parent × Bool)
    → y.1 ≡ s
    → (if c then (es, s, true) else y).1 ≡ s
same_if s true es y h = refl
same_if s false es y h = h

-- The last of them is the state after the round.
pub moments_end : (s : Parent) (input : Input) → last_of s (moments s input) ≡ (step s input).1
unfolding moments step destroy_child_process
moments_end s input = elim (Bool-cases (input.symbol == b'+')) [
  | inl e ↦ rw e refl
  | inr no_plus ↦ elim (Bool-cases (input.symbol == b'-')) [
    | inl e ↦ rw (no_plus, e) (minus_end s.children refl)
    | inr no_minus ↦ elim (Bool-cases (input.symbol == b'k')) [
      | inl e ↦
          let other : (input.symbol == b'l') ≡ false = ground (arith, e) in
          rw (no_plus, no_minus, other, e)
            (last_of-append s
              (at_table 0 (destroy_all_child_process input.status s.child_pid_mas s.children).1)
              (map (at_table s.children) (destroy_moments input.status s.child_pid_mas s.children)))
      | inr no_k ↦ elim (Bool-cases (input.symbol == b'q')) [
        | inl e ↦
            let other : (input.symbol == b'l') ≡ false = ground (arith, e) in
            rw (no_plus, no_minus, other, no_k, e)
              (last_of-destroy_moments input.status s.child_pid_mas s.children s.children)
        | inr no_q ↦
            rw (no_plus, no_minus, no_k, no_q)
              (sym (
                same_if s (input.symbol == b'l') _ _ (
                  same_if s (input.symbol == b's') _ _ (
                    same_if s (input.symbol == b'g') _ _
                      (same_if s (input.symbol == b'p') _ _ refl)))))
      ]
    ]
  ]
]
  where
    minus_end :
        (n : ℕ)
        → s.children ≡ n
        → last_of s (minus_moments input.status s.child_pid_mas n)
          ≡ at_table (n - 1) (destroy_child_process input.status s.child_pid_mas n).2
    minus_end zero e = λ i. record s { children = e i }
    minus_end (suc i) e =
        ap (λ k. at_table k (set s.child_pid_mas i (input.status i))) (omega arith)

-- A handler that runs before '-' has counted its child away finds in its slot what `wait` has
-- stored there: SIGINT then sends SIGTERM to the process with the status of the dead child as its
-- number, before any child.
pub interrupted_minus :
    (s : Parent) (input : Input) (i : ℕ) (status : ℕ → Pid)
    → input.symbol ≡ b'-'
    → s.children ≡ suc i
    → i < length s.child_pid_mas
    → (t : Parent) × (get_elem? (moments s input) 0 ≡ some t)
      × (rest : List Effect) × (on_sigint status t ≡ kill (input.status i) sigterm ∷ rest)
unfolding moments on_sigint terminations
interrupted_minus s input i status e c room =
    let no_plus : (input.symbol == b'+') ≡ false = ground (arith, e) in
    let minus : (input.symbol == b'-') ≡ true = ground (arith, e) in
    let pids = set s.child_pid_mas i (input.status i) in
    let slot : kill_slot pids sigterm i ≡ kill (input.status i) sigterm ∷ [] =
      kill_slot_lem pids sigterm i (input.status i)
        (get_elem?-set_self s.child_pid_mas i (input.status i) room) in
    (
      at_table (suc i) pids,
      rw (no_plus, minus, c) refl,
      (wait ∷ terminations pids i) ++ (wait ∷ []),
      ap (λ es. es ++ (wait ∷ []))
          (destroy_all_lem status pids (suc i)
            ∙ ap (λ es. es ++ (wait ∷ terminations pids i)) slot),
    )

signal_from-suc :
    (pids : List Pid) (signal : Signal) (i n : ℕ)
    → signal_from pids signal i (suc n)
      ≡ signal_from pids signal i n ++ kill_slot pids signal (i + n)
unfolding signal_from
signal_from-suc pids signal i zero =
    append-nil (kill_slot pids signal i) ∙ ap (kill_slot pids signal) (omega arith)
signal_from-suc pids signal i (suc n) =
    ap (λ es. kill_slot pids signal i ++ es) (signal_from-suc pids signal (i + 1) n)
    ∙ sym (
        append_assoc (kill_slot pids signal i) (signal_from pids signal (i + 1) n)
          (kill_slot pids signal (i + 1 + n)))
    ∙ ap
        (λ k.
          (kill_slot pids signal i ++ signal_from pids signal (i + 1) n) ++ kill_slot pids signal k)
        (omega arith)

-- A handler that runs before '+' has stored the new child finds in its slot what was there before.
pub interrupted_plus :
    (s : Parent) (input : Input) (old : Pid)
    → input.symbol ≡ b'+'
    → get_elem? s.child_pid_mas s.children ≡ some old
    → (t : Parent) × (get_elem? (moments s input) 0 ≡ some t)
      × (on_sigalrm t ≡ on_sigalrm s ++ (kill old sigusr1 ∷ []))
unfolding moments on_sigalrm
interrupted_plus s input old e slot =
    let plus : (input.symbol == b'+') ≡ true = ground (arith, e) in
    (
      at_table (s.children + 1) s.child_pid_mas,
      rw (plus) refl,
      ap (signal_from s.child_pid_mas sigusr1 0) {y = suc s.children} (omega arith)
          ∙ signal_from-suc s.child_pid_mas sigusr1 0 s.children
          ∙ ap (λ es. signal_from s.child_pid_mas sigusr1 0 s.children ++ es)
              (ap (kill_slot s.child_pid_mas sigusr1) (omega arith)
                ∙ kill_slot_lem s.child_pid_mas sigusr1 s.children old slot),
    )

-- If the timer of an earlier 'p' runs out just before 'p' starts it again, the children that
-- have been banned are allowed again: in place of one child all of them print, until the new
-- timer runs out.
pub late_alarm :
    (s : Parent) (n target : ℕ) (b : Bool) (m p : ℕ)
    → n < s.children
    → get_elem? s.child_pid_mas n ≡ some (process target)
    → m < s.children
    → get_elem? s.child_pid_mas m ≡ some (process p)
    → permission p b (
        ban_all_stats s.child_pid_mas s.children
        ++ (on_sigalrm s ++ (alarm 9 ∷ kill_at s.child_pid_mas sigusr1 (pos n))))
      ≡ true
unfolding on_sigalrm allow_all_stats kill_at kill_slot
late_alarm s n target b m p h slot hm slot_m =
    let pids = s.child_pid_mas in
    let again = alarm 9 ∷ kill_slot pids sigusr1 n in
    permission-append p b (ban_all_stats pids s.children) (on_sigalrm s ++ again)
    ∙ permission-append p (permission p b (ban_all_stats pids s.children)) (on_sigalrm s) again
    ∙ ap (λ c. permission p c again)
        (allow_from pids p s.children m (permission p b (ban_all_stats pids s.children)) hm slot_m)
    ∙ rw (kill_slot_lem pids sigusr1 n (process target) slot) (ground arith)
