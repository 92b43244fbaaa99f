-- ===== src/SemQueue/Resize.antt =====
-- What goes wrong when the queue of Lab5/lab5_1.c is resized at other times.
use osisp_labs.Common.{
  ◌+◌, ◌-◌, ◌<◌, ◌≡◌, ap, ◌∙◌, sym, subst, List, [], ◌∷◌, arith, Bool-cases, inl, inr, true, false,
  ltb, ◌==◌, if◌then◌else◌, some, none, Option, get_or, realloc, get_or-realloc, length-realloc,
}
use osisp_labs.Message.{Message}
use osisp_labs.Ring.{zero_message}
use osisp_labs.Ring.Loops.{shift_up_moved}
use osisp_labs.SemQueue.{
  get_message, increm_size, discr_size, System, Event, reserve, add, claim, get, grow, shrink, step,
}
use osisp_labs.SemQueue.Invariant.{IsValid}

-- Growing a valid queue whose write index is below its read index moves the slots from `tail` on:
-- the next message taken is what stood in the slot below the oldest message.
pub increm_size_wrapped :
    {s : System}
    → IsValid s
    → (junk : Message) → s.queue.tail < s.queue.head
    → (get_message (increm_size junk s.queue)).0
      ≡ get_or s.queue.buffer (s.queue.head - 1) zero_message
unfolding increm_size get_message
increm_size_wrapped {s} v junk wrapped =
    let q = s.queue in
    let t : ltb q.tail q.head ≡ true = ground arith in
    let grown = realloc junk (q.size_queue + 1) q.buffer in
    rw (t) (
      shift_up_moved (q.size_queue + 1 - 1) q.tail grown q.head
        (omega (arith, length-realloc junk (q.size_queue + 1) q.buffer)) wrapped
        (omega (arith, v.ring.head_in))
      ∙ get_or-realloc junk (q.size_queue + 1) q.buffer (q.head - 1) zero_message
          (omega (arith, v.ring.head_in)) (omega (arith, v.ring.head_in, v.ring.stored)))

-- Nobody moves but consumers that still find a permit.
abbrev pub OnlyClaims : List Event → Type 0
OnlyClaims [] = Unit
OnlyClaims (claim ∷ es) = OnlyClaims es
OnlyClaims (_ ∷ es) = ⊥

unfoldable pub run : System → List Event → Option System
run s [] = some s
run s (e ∷ es) = elim (step s e) [ none ↦ none | some s' ↦ run s' es ]

-- `discrSize` has the mutex and waits for a slot that nobody can give back.
abbrev pub IsStuck : System → Type 0
IsStuck s = (s.stuck ≡ true) × (s.queue.empty ≡ 0)

shrink_stuck :
    (s : System) (junk : Message)
    → IsValid s
    → s.stuck ≡ false
    → s.queue.empty ≡ 0
    → 0 < s.reserved + s.claimed
    → (s' : System) × (step s (shrink junk) ≡ some s') × IsStuck s'
unfolding step discr_size
shrink_stuck s junk v free none_left held =
    let t : ltb s.queue.full s.queue.size_queue ≡ true = ground (arith, v.slots) in
    let u : (s.queue.empty == 0) ≡ true = ground arith in
    let s' : System = record s {
      queue = (discr_size junk s.queue).1;
      stuck = (discr_size junk s.queue).0;
    } in
    (s', ap (λ b. if b then none else some s') free, rw (t) (u, omega (arith, none_left)))

-- What an event can do then: nothing, unless it is a consumer's claim.
abbrev StaysStuck : Event → Option System → Type 0
StaysStuck e none = Unit
StaysStuck claim (some s') = IsStuck s'
StaysStuck _ (some s') = ⊥

step_stuck : (s : System) (e : Event) → IsStuck s → StaysStuck e (step s e)
unfolding step
step_stuck s reserve (stuck, none_left) =
    let u : (s.queue.empty == 0) ≡ true = ground arith in rw (u) tt
step_stuck s (add msg) (stuck, none_left) = elim (Bool-cases (s.reserved == 0)) [
  | inl t ↦ rw (t) tt
  | inr f ↦ rw (f, stuck) tt
]
step_stuck s claim (stuck, none_left) = elim (Bool-cases (s.queue.full == 0)) [
  | inl t ↦ rw (t) tt
  | inr f ↦ rw (f) (stuck, none_left)
]
step_stuck s get (stuck, none_left) = elim (Bool-cases (s.claimed == 0)) [
  | inl t ↦ rw (t) tt
  | inr f ↦ rw (f, stuck) tt
]
step_stuck s (grow junk) (stuck, none_left) = rw (stuck) tt
step_stuck s (shrink junk) (stuck, none_left) = rw (stuck) tt

abbrev after : Option System → List Event → Option System
after none es = none
after (some s) es = run s es

run-step : (s : System) (e : Event) (es : List Event) → run s (e ∷ es) ≡ after (step s e) es
unfolding run
run-step s e es = ground arith

after-IsStuck :
    (e : Event) (es : List Event) (o : Option System) (t : System)
    → StaysStuck e o
    → after o es ≡ some t
    → ((s' : System) → IsStuck s' → run s' es ≡ some t → OnlyClaims es × IsStuck t)
    → OnlyClaims (e ∷ es) × IsStuck t
after-IsStuck e es none t h done rest = absurd (cc)
after-IsStuck claim es (some s') t h done rest = rest s' h done
after-IsStuck reserve es (some s') t h done rest = absurd h
after-IsStuck (add msg) es (some s') t h done rest = absurd h
after-IsStuck get es (some s') t h done rest = absurd h
after-IsStuck (grow junk) es (some s') t h done rest = absurd h
after-IsStuck (shrink junk) es (some s') t h done rest = absurd h

abbrev StuckIn : Option System → Type 0
StuckIn none = Unit
StuckIn (some s) = IsStuck s

run-IsStuck :
    (s t : System) (es : List Event) → IsStuck s → run s es ≡ some t → OnlyClaims es × IsStuck t
unfolding run
run-IsStuck s t [] h done = (tt, subst StuckIn done h)
run-IsStuck s t (e ∷ es) h done =
    after-IsStuck e es (step s e) t (step_stuck s e h) (sym (run-step s e es) ∙ done)
      (λ s' h' d. run-IsStuck s' t es h' d)

-- Shrinking a valid queue while threads between semaphore and mutex hold a slot and no other slot
-- is free deadlocks: in every run after it, only consumers still pass their semaphore,
-- `discrSize` stays in `sem_wait` with the mutex, and no slot becomes free.
pub shrink_deadlock :
    (s t : System) (junk : Message) (es : List Event)
    → IsValid s
    → s.stuck ≡ false
    → s.queue.empty ≡ 0
    → 0 < s.reserved + s.claimed
    → run s (shrink junk ∷ es) ≡ some t
    → OnlyClaims es × IsStuck t
shrink_deadlock s t junk es v free none_left held done =
    let (s', e, stuck) = shrink_stuck s junk v free none_left held in
    run-IsStuck s' t es stuck
      (ap (λ o. after o es) (sym e) ∙ sym (run-step s (shrink junk) es) ∙ done)
