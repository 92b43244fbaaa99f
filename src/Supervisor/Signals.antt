-- ===== src/Supervisor/Signals.antt =====
-- Which child may print after a command of Lab3/lab3.c, by the signals that it gets: SIGUSR1
-- allows the output and SIGUSR2 bans it (Lab3/child.c).
use osisp_labs.Common.{
  ℕ, zero, suc, ◌+◌, ◌<◌, ◌≤◌, ◌≡◌, refl, ap, ◌∙◌, sym, subst, Bool, true, false, some, none, List,
  [], ◌∷◌, ◌++◌, arith, ltb, ◌==◌, if◌then◌else◌, get_elem?,
}
use native.Mathlib.Decide.{ℕ_discrete}
use osisp_labs.Supervisor.{
  Pid, process, minus_one, Signal, sigterm, sigusr1, sigusr2, Effect, kill, wait, spawned, alarm,
  listed, pos, Parent, Input, kill_slot, signal_from, ban_all_stats, allow_all_stats, on_sigalrm,
  kill_at, prior_command,
}

-- `permissionOutput` of the child with this pid after one more effect. `kill(-1, …)` reaches every
-- process.
abbrev pub permission_after : ℕ → Bool → Effect → Bool
permission_after p b (kill (process q) sigterm) = b
permission_after p b (kill (process q) sigusr1) = if q == p then true else b
permission_after p b (kill (process q) sigusr2) = if q == p then false else b
permission_after p b (kill minus_one sigterm) = b
permission_after p b (kill minus_one sigusr1) = true
permission_after p b (kill minus_one sigusr2) = false
permission_after p b wait = b
permission_after p b (spawned _) = b
permission_after p b (alarm _) = b
permission_after p b (listed _) = b

abbrev pub permission : ℕ → Bool → List Effect → Bool
permission p b [] = b
permission p b (e ∷ es) = permission p (permission_after p b e) es

pub permission-append :
    (p : ℕ) (b : Bool) (es fs : List Effect)
    → permission p b (es ++ fs) ≡ permission p (permission p b es) fs
permission-append p b [] fs = refl
permission-append p b (e ∷ es) fs = permission-append p (permission_after p b e) es fs

pub kill_slot_lem :
    (pids : List Pid) (signal : Signal) (i : ℕ) (p : Pid)
    → get_elem? pids i ≡ some p
    → kill_slot pids signal i ≡ kill p signal ∷ []
unfolding kill_slot
kill_slot_lem pids signal i p e = ground arith

-- A signal that gives a child its permission, or takes it, and so does to none the contrary.
module _ (signal : Signal) (p : ℕ) (v : Bool)
    (stays : (q : Pid) → permission_after p v (kill q signal) ≡ v)
    (own : (b : Bool) → permission_after p b (kill (process p) signal) ≡ v) where
  stays_slot : (pids : List Pid) (i : ℕ) → permission p v (kill_slot pids signal i) ≡ v
  unfolding kill_slot
  stays_slot pids i =
      elim (get_elem? pids i)
        as (λ o.
          permission p v (elim o as (λ _. List Effect) [ none ↦ [] | some q ↦ kill q signal ∷ [] ])
          ≡ v) [ none ↦ refl | some q ↦ stays q ]

  stays_from : (pids : List Pid) (i n : ℕ) → permission p v (signal_from pids signal i n) ≡ v
  unfolding signal_from
  stays_from pids i zero = refl
  stays_from pids i (suc n) =
      permission-append p v (kill_slot pids signal i) (signal_from pids signal (i + 1) n)
      ∙ ap (λ b. permission p b (signal_from pids signal (i + 1) n)) (stays_slot pids i)
      ∙ stays_from pids (i + 1) n

  -- The signal to all reaches every child in its range.
  signal_from-permission :
      (pids : List Pid) (i n j : ℕ) (b : Bool)
      → i ≤ j
      → j < i + n
      → get_elem? pids j ≡ some (process p)
      → permission p b (signal_from pids signal i n) ≡ v
  unfolding signal_from
  signal_from-permission pids i zero j b h k e = absurd (omega arith)
  signal_from-permission pids i (suc n) j b h k e =
      permission-append p b (kill_slot pids signal i) (signal_from pids signal (i + 1) n)
      ∙ elim (ℕ_discrete i j) [
        | yes same ↦
            let slot =
              kill_slot_lem pids signal i (process p)
                (subst (λ m. get_elem? pids m ≡ some (process p)) (sym same) e) in
            ap (λ c. permission p c (signal_from pids signal (i + 1) n)) (rw slot (own b))
            ∙ stays_from pids (i + 1) n
        | no other ↦
            signal_from-permission pids (i + 1) n j (permission p b (kill_slot pids signal i))
              (omega arith) (omega arith) e
      ]

ban_from :
    (pids : List Pid) (p n j : ℕ) (b : Bool)
    → j < n
    → get_elem? pids j ≡ some (process p)
    → permission p b (signal_from pids sigusr2 0 n) ≡ false
ban_from pids p n j b k e =
    signal_from-permission sigusr2 p false stays own pids 0 n j b (omega arith) (omega arith) e
  where
    stays : (q : Pid) → permission_after p false (kill q sigusr2) ≡ false
    stays (process q) = ground arith
    stays minus_one = refl

    own : (b : Bool) → permission_after p b (kill (process p) sigusr2) ≡ false
    own b = ground arith

pub allow_from :
    (pids : List Pid) (p n j : ℕ) (b : Bool)
    → j < n
    → get_elem? pids j ≡ some (process p)
    → permission p b (signal_from pids sigusr1 0 n) ≡ true
allow_from pids p n j b k e =
    signal_from-permission sigusr1 p true stays own pids 0 n j b (omega arith) (omega arith) e
  where
    stays : (q : Pid) → permission_after p true (kill q sigusr1) ≡ true
    stays (process q) = ground arith
    stays minus_one = refl

    own : (b : Bool) → permission_after p b (kill (process p) sigusr1) ≡ true
    own b = ground arith

-- After 'p' with the number of a child, whatever was allowed before, of the children in the table
-- exactly that child may print.
pub prior_command-permission :
    (s : Parent) (input : Input) (n target : ℕ) (b : Bool) (m p : ℕ)
    → input.number ≡ pos n
    → n < s.children
    → get_elem? s.child_pid_mas n ≡ some (process target)
    → m < s.children
    → get_elem? s.child_pid_mas m ≡ some (process p)
    → permission p b (prior_command s input) ≡ (target == p)
unfolding prior_command ban_all_stats kill_at
prior_command-permission s input n target b m p e hn et hm ep =
    let t : ltb n s.children ≡ true = ground arith in
    rw (e, t, kill_slot_lem s.child_pid_mas sigusr1 n (process target) et)
      (permission-append p b (signal_from s.child_pid_mas sigusr2 0 s.children)
          (alarm 9 ∷ kill (process target) sigusr1 ∷ [])
        ∙ ap (λ c. permission p c (alarm 9 ∷ kill (process target) sigusr1 ∷ []))
            (ban_from s.child_pid_mas p s.children m b (omega arith) ep)
        ∙ ground arith)

-- After 'p' with the number of a child, whatever was allowed before, of the children in the table
-- exactly that child may print, and when the alarm has rung all of them may.
pub prior_command-on_sigalrm :
    (s : Parent) (input : Input) (n target : ℕ) (b : Bool) (m p : ℕ)
    → input.number ≡ pos n
    → n < s.children
    → get_elem? s.child_pid_mas n ≡ some (process target)
    → m < s.children
    → get_elem? s.child_pid_mas m ≡ some (process p)
    → (permission p b (prior_command s input) ≡ (target == p))
      × (permission p b (prior_command s input ++ on_sigalrm s) ≡ true)
unfolding on_sigalrm allow_all_stats
prior_command-on_sigalrm s input n target b m p e hn et hm ep = (
  prior_command-permission s input n target b m p e hn et hm ep,
  permission-append p b (prior_command s input) (signal_from s.child_pid_mas sigusr1 0 s.children)
      ∙ allow_from s.child_pid_mas p s.children m (permission p b (prior_command s input)) hm ep,
)
