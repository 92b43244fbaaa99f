-- ===== src/Supervisor/Spawned.antt =====
-- The table of children in Lab3/lab3.c behind a fork, and behind the end of a child.
use osisp_labs.Common.{
  ℕ, suc, ◌+◌, ◌<◌, ◌≡◌, ◌≢◌, ap, ◌∙◌, sym, Bool, true, false, ◌⊎◌, inl, inr, some, List, arith,
  ◌==◌, if◌then◌else◌, Bool-cases, get_elem?, set, length-set, get_elem?-set_self, get_elem?-set_ne,
}
use native.Mathlib.Decide.{ℕ_discrete}
use osisp_labs.Supervisor.{Pid, process, Parent, max_child}
use osisp_labs.Supervisor.Table.{up, IsTable, terminations, terminations-false, terminations_end}

module _ {s : Parent} {runs : ℕ → Bool} (t : IsTable s runs) where
  module _ (p : ℕ) (room : s.children < max_child) (fresh : runs p ≡ false) where
    abbrev with_new : List Pid
    with_new = set s.child_pid_mas s.children (process p)

    new_slot : get_elem? with_new s.children ≡ some (process p)
    new_slot = get_elem?-set_self s.child_pid_mas s.children (process p) (omega (arith, t.whole))

    old_slot : (i : ℕ) → i < s.children → get_elem? with_new i ≡ get_elem? s.child_pid_mas i
    old_slot i h = get_elem?-set_ne s.child_pid_mas s.children i (process p) (omega arith)

    -- A slot of the new table is the new one, or an old one with a child that runs.
    slot_cases :
        (i q : ℕ)
        → i < s.children + 1
        → get_elem? with_new i ≡ some (process q)
        → ((i ≡ s.children) × (p ≡ q))
          ⊎ ((i < s.children) × (get_elem? s.child_pid_mas i ≡ some (process q)) × (p ≢ q))
    slot_cases i q h e = elim (ℕ_discrete i s.children) [
      | yes last ↦ inl (last, ground (arith, new_slot))
      | no other ↦
          let below : i < s.children = omega arith in
          let (r, er, alive) = t.filled i below in
          let old = sym (old_slot i below) ∙ e in inr (below, old, λ same. ground arith)
    ]

    -- A child that did not run before takes the next slot.
    pub spawn-IsTable :
        IsTable
          (record s { children = s.children + 1; child_pid_mas = with_new })
          (λ q. if p == q then true else runs q)
    spawn-IsTable = record {
      whole = length-set s.child_pid_mas s.children (process p) ∙ t.whole;
      room = omega arith;
      filled = λ i h. elim (ℕ_discrete i s.children) [
        | yes last ↦ (p, ground (arith, new_slot), ground arith)
        | no other ↦
            let below : i < s.children = omega arith in
            let (q, e, alive) = t.filled i below in (q, old_slot i below ∙ e, ground arith)
      ];
      covered = λ q alive. elim (ℕ_discrete p q) [
        | yes same ↦ (s.children, omega arith, ground (arith, new_slot))
        | no other ↦
            let (i, h, e) = t.covered q (ground arith) in (i, omega arith, old_slot i h ∙ e)
      ];
      distinct = λ i j q hi hj ei ej. elim (slot_cases i q hi ei) [
        | inl (last, same) ↦ elim (slot_cases j q hj ej) [
          | inl (last', same') ↦ last ∙ sym last'
          | inr (below', old', other') ↦ absurd (other' same)
        ]
        | inr (below, old, other) ↦ elim (slot_cases j q hj ej) [
          | inl (last', same') ↦ absurd (other same')
          | inr (below', old', other') ↦ t.distinct i j q below below' old old'
        ]
      ];
    }

  module _ (status : ℕ → Pid) (n last : ℕ) (e : s.children ≡ suc n)
      (el : get_elem? s.child_pid_mas n ≡ some (process last)) where
    abbrev without_last : List Pid
    without_last = set s.child_pid_mas n (status n)

    kept_slot : (i : ℕ) → i < n → get_elem? without_last i ≡ get_elem? s.child_pid_mas i
    kept_slot i h = get_elem?-set_ne s.child_pid_mas n i (status n) (omega arith)

    -- The last child is ended and its slot given up.
    pub last-IsTable :
        IsTable
          (record s { children = n; child_pid_mas = without_last })
          (λ q. if last == q then false else runs q)
    last-IsTable = record {
      whole = length-set s.child_pid_mas n (status n) ∙ t.whole;
      room = omega (arith, t.room);
      filled = λ i h.
          let (q, eq, alive) = t.filled i (omega arith) in
          let other : last ≢ q = λ same. absurd (
            omega (
              arith,
              t.distinct i n q (omega arith) (omega arith) eq
                  (el ∙ ap (λ r. some (process r)) same),
            )) in
          (q, kept_slot i h ∙ eq, ground arith);
      covered = λ q alive.
          let (i, h, eq) = t.covered q (ground arith) in
          let other : i ≢ n = λ same. absurd (ground arith) in
          (i, omega arith, kept_slot i (omega arith) ∙ eq);
      distinct = λ i j q hi hj ei ej.
          t.distinct i j q (omega arith) (omega arith) (sym (kept_slot i hi) ∙ ei)
            (sym (kept_slot j hj) ∙ ej);
    }

  -- Ending all children leaves none.
  pub all_ended :
      (status : ℕ → Pid) (p : ℕ) → up p (runs p) (terminations s.child_pid_mas s.children) ≡ false
  all_ended status p = elim (Bool-cases (runs p)) [
    | inl alive ↦
        let (i, h, e) = t.covered p alive in
        terminations_end s.child_pid_mas s.children p i (runs p) h e
    | inr dead ↦ rw dead (terminations-false s.child_pid_mas s.children p)
  ]
