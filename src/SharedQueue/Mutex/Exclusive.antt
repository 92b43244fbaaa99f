-- ===== src/SharedQueue/Mutex/Exclusive.antt =====
-- Without signals the section of Lab4/lab4Main.c is one event, as SharedQueue takes it.
use mathlib.Core.Option.{some-injective}
use osisp_labs.Common.{
  defined_from, ℕ, zero, suc, ◌≡◌, refl, ap, sym, subst, ◌∙◌, inl, inr, arith, true, false, some,
  List, [], ◌∷◌,
}
use osisp_labs.SharedQueue.{Shared}
use osisp_labs.SharedQueue.Mutex.{
  Pc, outside, waiting, counting, copying, passing, storing, jumping, wrapping, posting_full,
  posting_mutex, System, update, work, Event, arrives, enters, interrupted, works, leaves, arrived,
  entered, left, step, run, start,
}
use osisp_labs.SharedQueue.Mutex.Sections.{in_section, fill}
use osisp_labs.SharedQueue.Mutex.Owner.{
  Good, owns, same_outside, enters-Good, works-Good, leaves-Good,
}

-- No signal ends a wait for the mutex.
abbrev pub NoSignals : List Event → Type 0
NoSignals [] = Unit
NoSignals (interrupted i ∷ es) = ⊥
NoSignals (_ ∷ es) = NoSignals es

arrived-Good :
    (given : Shared) (p : Pc) (i size : ℕ) (s s' : System)
    → s.pc i ≡ p
    → arrived p i size s ≡ some s'
    → Good given s
    → Good given s'
arrived-Good given outside i size s s' at e good =
    subst (Good given) (some-injective _ _ e)
      (same_outside given s i (waiting size) (ap in_section at) refl good)
arrived-Good given _ i size s s' at e good = absurd (cc)

entered-Good :
    (given : Shared) (p : Pc) (n i : ℕ) (s s' : System)
    → s.pc i ≡ p
    → s.mutex ≡ n
    → entered p n i s ≡ some s'
    → Good given s
    → Good given s'
entered-Good given (waiting size) (suc n) i s s' at m e good =
    subst (Good given) (some-injective _ _ e) (enters-Good given s i size n at m good)
entered-Good given (waiting size) zero i s s' at m e good = absurd (cc)
entered-Good given outside n i s s' at m e good = absurd (cc)
entered-Good given (counting size) n i s s' at m e good = absurd (cc)
entered-Good given (copying size) n i s s' at m e good = absurd (cc)
entered-Good given (passing size) n i s s' at m e good = absurd (cc)
entered-Good given (storing size) n i s s' at m e good = absurd (cc)
entered-Good given jumping n i s s' at m e good = absurd (cc)
entered-Good given wrapping n i s s' at m e good = absurd (cc)
entered-Good given posting_full n i s s' at m e good = absurd (cc)
entered-Good given posting_mutex n i s s' at m e good = absurd (cc)

left-Good :
    (given : Shared) (p : Pc) (i : ℕ) (s s' : System)
    → s.pc i ≡ p
    → left p i s ≡ some s'
    → Good given s
    → Good given s'
left-Good given posting_mutex i s s' at e good =
    subst (Good given) (some-injective _ _ e) (leaves-Good given s i at good)
left-Good given _ i s s' at e good = absurd (cc)

step-Good :
    (given : Shared) (event : Event) (s s' : System)
    → NoSignals (event ∷ [])
    → step s event ≡ some s'
    → Good given s
    → Good given s'
unfolding step
step-Good given (arrives i size) s s' h e good = arrived-Good given (s.pc i) i size s s' refl e good
step-Good given (enters i) s s' h e good =
    entered-Good given (s.pc i) s.mutex i s s' refl refl e good
step-Good given (interrupted i) s s' h e good = absurd h
step-Good given (works i) s s' h e good =
    let (r, worked, rest) =
      defined_from (work (s.pc i) s.shared)
        (λ (p, shared). some (record s { shared = shared; pc = update s.pc i p })) s' e in
    subst (Good given) (some-injective _ _ rest) (works-Good given s i r worked good)
step-Good given (leaves i) s s' h e good = left-Good given (s.pc i) i s s' refl e good

no_signal :
    (event : Event) (es : List Event)
    → NoSignals (event ∷ es)
    → NoSignals (event ∷ []) × NoSignals es
no_signal (arrives i size) es h = (tt, h)
no_signal (enters i) es h = (tt, h)
no_signal (interrupted i) es h = absurd h
no_signal (works i) es h = (tt, h)
no_signal (leaves i) es h = (tt, h)

run-Good :
    (given : Shared) (es : List Event) (s s' : System)
    → NoSignals es
    → run es s ≡ some s'
    → Good given s
    → Good given s'
unfolding run
run-Good given [] s s' h e good = subst (Good given) (some-injective _ _ e) good
run-Good given (event ∷ es) s s' h e good =
    let (first, others) = no_signal event es h in
    let (next, stepped, rest) = defined_from (step s event) (run es) s' e in
    run-Good given es next s' others rest (step-Good given event s next first stepped good)

start-Good : (given : Shared) → Good given (start given)
start-Good given = ([], inl (record { open_mutex = refl; nobody = λ j. refl; filled = refl }))

-- From a start with a free mutex and nobody in the section, as long as no signal ends a wait for
-- the mutex: two processes are never in the section at once.
pub one_in_section :
    (given : Shared) (es : List Event) (s : System) (i j : ℕ)
    → NoSignals es
    → run es (start given) ≡ some s
    → in_section (s.pc i) ≡ true
    → in_section (s.pc j) ≡ true
    → i ≡ j
one_in_section given es s i j h e hi hj =
    elim (run-Good given es (start given) s h e (start-Good given)).1 [
      | inl idle ↦ absurd (cc (idle.nobody i, hi))
      | inr busy ↦ sym (owns given s busy i hi) ∙ owns given s busy j hj
    ]

-- From a start with a free mutex and nobody in the section, as long as no signal ends a wait for
-- the mutex, however the stores of the processes mix: when the mutex is free, the queue is what one whole section after the other makes of it, and nobody is
-- in the section.
pub sections_atomic :
    (given : Shared) (es : List Event) (s : System)
    → NoSignals es
    → run es (start given) ≡ some s
    → s.mutex ≡ 1
    → (sizes : List ℕ) × (s.shared ≡ fill sizes given) × ((i : ℕ) → in_section (s.pc i) ≡ false)
sections_atomic given es s h e free =
    let (sizes, good) = run-Good given es (start given) s h e (start-Good given) in
    elim good [
      | inl idle ↦ (sizes, idle.filled, idle.nobody)
      | inr busy ↦ absurd (omega (arith, free, busy.shut_mutex))
    ]
