-- ===== src/Supervisor/Session.antt =====
-- Sessions of Lab3/lab3.c: the table of children stays right, and leaving ends every child.
use osisp_labs.Common.{
  either_when, ℕ, zero, suc, ◌+◌, ◌-◌, ◌<◌, ◌≡◌, ◌≢◌, refl, ap, ◌∙◌, sym, subst, Bool, true, false,
  ◌⊎◌, inl, inr, List, [], ◌∷◌, ◌++◌, arith, ◌==◌, set, length, get_elem?-set_self,
}
use mathlib.Core.Path.{fun_ext}
use osisp_labs.Supervisor.{
  process, minus_one, sigterm, sigusr1, sigusr2, Effect, kill, wait, spawned, Parent, Input,
  max_child, kill_slot, prior_command, signal_command, call_child, destroy_child_process,
  destroy_all_child_process, step, list_processes,
}
use osisp_labs.Supervisor.Table.{
  up, IsTable, destroy_all_lem, length-destroy_all, up-append, kill_slot_cases, signal_command_user,
  prior_command_user,
}
use osisp_labs.Supervisor.Spawned.{spawn-IsTable, last-IsTable, all_ended}

IsTable-ext : {s : Parent} {f g : ℕ → Bool} → ((p : ℕ) → f p ≡ g p) → IsTable s f → IsTable s g
IsTable-ext {s} h t = subst (IsTable s) (fun_ext h) t

-- `fork` gives a child that does not run yet, and the table has room.
abbrev pub Forks : Parent → (ℕ → Bool) → Input → Type 0
Forks s runs input =
    (p : ℕ) × (input.forked ≡ process p) × (runs p ≡ false) × (s.children < max_child)

-- The table is right for the processes that run after a round with this outcome.
record Keeps (runs : ℕ → Bool) (r : List Effect × Parent × Bool) : Type 0 where
  table : IsTable r.1 (λ p. up p (runs p) r.0)

module _ {s : Parent} {runs : ℕ → Bool} (t : IsTable s runs) (input : Input) where
  plus-Keeps :
      Forks s runs input
      → Keeps runs (
        spawned input.forked ∷ [],
        record s {
          children = s.children + 1;
          child_pid_mas = set s.child_pid_mas s.children input.forked;
        },
        true,
      )
  plus-Keeps (p, f, fresh, room) = rw f (record { table = spawn-IsTable t p room fresh })

  minus-Keeps :
      (n : ℕ)
      → s.children ≡ n
      → Keeps runs (
        (destroy_child_process input.status s.child_pid_mas n).1,
        record {
          children = n - 1;
          child_pid_mas = (destroy_child_process input.status s.child_pid_mas n).2;
        },
        true,
      )
  unfolding destroy_child_process
  minus-Keeps zero e = record {
    table =
        subst (λ n. IsTable (record { children = n; child_pid_mas = s.child_pid_mas }) runs) e t;
  }
  minus-Keeps (suc n) e =
      let (last, el, _) = t.filled n (omega arith) in
      rw (kill_slot_cases s.child_pid_mas sigterm n, el, pred_suc)
        (record { table = last-IsTable t input.status n last e el })
    where
      pred_suc : suc n - 1 ≡ n
      pred_suc = omega arith

  kill_all-Keeps : Keeps runs (
    (destroy_all_child_process input.status s.child_pid_mas s.children).0,
    record {
      children = 0;
      child_pid_mas = (destroy_all_child_process input.status s.child_pid_mas s.children).1;
    },
    true,
  )
  kill_all-Keeps = record {
    table =
        IsTable-ext
          (λ p. ap (up p (runs p)) (sym (destroy_all_lem input.status s.child_pid_mas s.children)))
          (record {
            whole = length-destroy_all input.status s.child_pid_mas s.children ∙ t.whole;
            room = omega arith;
            filled = λ i h. absurd (omega arith);
            covered = λ p alive. absurd (cc (all_ended t input.status p));
            distinct = λ i j p hi hj ei ej. absurd (omega arith);
          });
  }

  same-Keeps :
      (effects : List Effect)
      → ((p : ℕ) → up p (runs p) effects ≡ runs p)
      → Keeps runs (effects, s, true)
  same-Keeps effects h = record { table = IsTable-ext (λ p. sym (h p)) t }

  -- If the table shows the children that run, each once, every round but 'q' keeps it so,
  -- provided that a '+' finds room and `fork` gives the number of a process that did not run.
  pub step-IsTable :
      (input.symbol ≡ b'+' → Forks s runs input)
      → input.symbol ≢ b'q'
      → IsTable (step s input).1 (λ p. up p (runs p) (step s input).0)
  step-IsTable forks stays = keeps.table
    where
      keeps : Keeps runs (step s input)
      keeps =
          unfold step call_child list_processes in
          either_when (Keeps runs) (input.symbol == b'+') _ _
            (λ e. plus-Keeps (forks (ground arith)))
            (λ _.
              either_when (Keeps runs) (input.symbol == b'-') _ _ (λ _. minus-Keeps s.children refl)
                (λ _.
                  either_when (Keeps runs) (input.symbol == b'l') _ _
                    (λ _. same-Keeps (list_processes s.child_pid_mas s.children) (λ p. refl))
                    (λ _.
                      either_when (Keeps runs) (input.symbol == b'k') _ _ (λ _. kill_all-Keeps)
                        (λ _.
                          either_when (Keeps runs) (input.symbol == b'q') _ _
                            (λ e. absurd (stays (ground arith)))
                            (λ _.
                              either_when (Keeps runs) (input.symbol == b's') _ _
                                (λ _.
                                  same-Keeps (signal_command sigusr2 s input)
                                    (λ p. signal_command_user sigusr2 s input p (runs p) tt))
                                (λ _.
                                  either_when (Keeps runs) (input.symbol == b'g') _ _
                                    (λ _.
                                      same-Keeps (signal_command sigusr1 s input)
                                        (λ p. signal_command_user sigusr1 s input p (runs p) tt))
                                    (λ _.
                                      either_when (Keeps runs) (input.symbol == b'p') _ _
                                        (λ _.
                                          same-Keeps (prior_command s input)
                                            (λ p. prior_command_user s input p (runs p)))
                                        (λ _. same-Keeps [] (λ p. refl)))))))))

  -- If the table shows the children that run, 'k' and 'q' leave none running.
  pub step_ends_all :
      (input.symbol ≡ b'k') ⊎ (input.symbol ≡ b'q')
      → (p : ℕ) → up p (runs p) (step s input).0 ≡ false
  step_ends_all leaving p = elim leaving [
    | inl e ↦
        ap (up p (runs p)) (effects_k e ∙ destroy_all_lem input.status s.child_pid_mas s.children)
        ∙ all_ended t input.status p
    | inr e ↦
        ap (up p (runs p)) (effects_q e)
        ∙ up-append p (runs p) (destroy_all_child_process input.status s.child_pid_mas s.children).0
            (wait ∷ [])
        ∙ ap (up p (runs p)) (destroy_all_lem input.status s.child_pid_mas s.children)
        ∙ all_ended t input.status p
  ]
    where
      effects_k :
          input.symbol ≡ b'k'
          → (step s input).0 ≡ (destroy_all_child_process input.status s.child_pid_mas s.children).0
      effects_k e = unfold step in ground arith

      effects_q :
          input.symbol ≡ b'q'
          → (step s input).0
            ≡ (destroy_all_child_process input.status s.child_pid_mas s.children).0 ++ (wait ∷ [])
      effects_q e = unfold step in ground arith

-- With room in the table, a failed `fork` is entered as a child, and a '-' right after it sends
-- SIGTERM to -1, which is every process.
pub failed_fork_signals_all :
    (s : Parent) (plus minus : Input)
    → plus.symbol ≡ b'+'
    → plus.forked ≡ minus_one
    → minus.symbol ≡ b'-'
    → s.children < length s.child_pid_mas
    → (step (step s plus).1 minus).0 ≡ kill minus_one sigterm ∷ wait ∷ []
unfolding step call_child destroy_child_process kill_slot
failed_fork_signals_all s plus minus ep ef em room =
    ground (arith, get_elem?-set_self s.child_pid_mas s.children plus.forked room)
