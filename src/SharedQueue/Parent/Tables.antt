-- ===== src/SharedQueue/Parent/Tables.antt =====
-- The tables of the parent process of Lab4/lab4Main.c as stacks.
use osisp_labs.Common.{
  ℕ, zero, suc, ◌+◌, ◌≡◌, ◌<◌, ◌≤◌, inl, inr, refl, subst, ==_iff, sym, ap, ap₂, ◌∙◌, Bool-cases,
  Option, none, some, List, [], ◌∷◌, ltb, ◌==◌, if◌then◌else◌, get_elem?, get_or, set, length,
  arith, length-set, get_or-set_self, get_or-set_ne,
}
use osisp_labs.SharedQueue.Parent.{
  Pid, minus_one, Pool, Effect, kill_usr1, create, destroy_child_process, pool_command, max_child,
}

-- The processes of a table, the last started first.
unfoldable pub stack_of : ℕ → List Pid → List Pid
stack_of zero pids = []
stack_of (suc i) pids = get_or pids i minus_one ∷ stack_of i pids

abbrev pub stack : Pool → List Pid
stack p = stack_of p.count p.pid_mas

pub record IsPool (p : Pool) : Type 0 where
  pub room : p.count ≤ 20
  pub whole : length p.pid_mas ≡ 20

abbrev pub popped : List Pid → List Pid × List Effect
popped [] = ([], [])
popped (p ∷ ps) = (ps, kill_usr1 p ∷ [])

-- What a stack does for the second character: '+' pushes, '-' takes the top off and signals it.
abbrev pub stack_step : ℕ → Pid → List Pid → List Pid × List Effect
stack_step c chpid ps =
    if c == b'+' then (chpid ∷ ps, []) else if c == b'-' then popped ps else (ps, [])

stack_of-set :
    (i j : ℕ) (pids : List Pid) (p : Pid) → i ≤ j → stack_of i (set pids j p) ≡ stack_of i pids
unfolding stack_of
stack_of-set zero j pids p h = refl
stack_of-set (suc i) j pids p h =
    ap₂ ◌∷◌ (get_or-set_ne pids j i p minus_one (λ e. absurd (omega arith)))
      (stack_of-set i j pids p (omega arith))

get_elem?-get_or :
    (pids : List Pid) (i : ℕ) → i < length pids → get_elem? pids i ≡ some (get_or pids i minus_one)
get_elem?-get_or [] i h = absurd (omega arith)
get_elem?-get_or (p ∷ pids) zero h = refl
get_elem?-get_or (p ∷ pids) (suc i) h = get_elem?-get_or pids i (omega arith)

-- A command that is carried out does to the table what it does to a stack, and the table stays one.
unfoldable pub Refines : ℕ → Pid → Pool → Option (Pool × List Effect) → Type 0
Refines c chpid p none = (c ≡ b'+') × (p.count ≡ 20)
Refines c chpid p (some (q, effects)) =
    IsPool q × ((stack q, effects) ≡ stack_step c chpid (stack p))

pushed :
    (chpid : Pid) (n m : ℕ) (pids : List Pid)
    → m ≡ suc n
    → n < length pids
    → stack_of m (set pids n chpid) ≡ chpid ∷ stack_of n pids
unfolding stack_of
pushed chpid n m pids e h =
    rw e (
      ap₂ ◌∷◌ (get_or-set_self pids n chpid minus_one h)
        (stack_of-set n n pids chpid (omega arith)))

plus-Refines :
    (chpid : Pid) (p : Pool) → IsPool p → Refines b'+' chpid p (pool_command b'+' chpid p)
unfolding pool_command create Refines stack_of
plus-Refines chpid p h = elim (Bool-cases (ltb p.count max_child)) [
  | inl e ↦
      (let room : p.count < 20 = ground (arith, e) in
        rw e (
          record {
            room = omega (arith, room);
            whole = length-set p.pid_mas p.count chpid ∙ h.whole;
          },
          ap (λ ps. (ps, []))
              (pushed chpid p.count (p.count + 1) p.pid_mas (omega arith)
                (omega (arith, room, h.whole))),
        ))
  | inr e ↦ (let full : p.count ≡ 20 = ground (arith, e, h.room) in rw e (refl, full))
]

minus-Refines :
    (chpid : Pid) (count : ℕ) (pids : List Pid)
    → IsPool (record { count = count; pid_mas = pids })
    → Refines b'-' chpid
        (record { count = count; pid_mas = pids })
        (pool_command b'-' chpid (record { count = count; pid_mas = pids }))
unfolding pool_command destroy_child_process Refines stack_of
minus-Refines chpid zero pids h = (h, refl)
minus-Refines chpid (suc i) pids h =
    let found = get_elem?-get_or pids i (omega (arith, h.room, h.whole)) in
    rw found (record { room = omega (arith, h.room); whole = h.whole }, refl)

-- A command is carried out on a table of 20 slots as on a stack, with the signal to the process
-- that the stack gives back, and the table keeps its form; only a '+' at twenty processes writes
-- behind the table.
pub pool_command-Refines :
    (c : ℕ) (chpid : Pid) (p : Pool) → IsPool p → Refines c chpid p (pool_command c chpid p)
unfolding pool_command Refines
pool_command-Refines c chpid p h = elim (Bool-cases (c == b'+')) [
  | inl e ↦
      subst (λ c. Refines c chpid p (pool_command c chpid p)) (sym ((==_iff c b'+').0 e))
        (plus-Refines chpid p h)
  | inr e ↦ elim (Bool-cases (c == b'-')) [
    | inl k ↦
        subst (λ c. Refines c chpid p (pool_command c chpid p)) (sym ((==_iff c b'-').0 k))
          (minus-Refines chpid p.count p.pid_mas h)
    | inr k ↦ rw (e, k) (h, rw (e, k) refl)
  ]
]
