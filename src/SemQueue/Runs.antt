-- ===== src/SemQueue/Runs.antt =====
-- Runs of the threads of Lab5/lab5_1.c: what is taken out is what was put in, in that order.
use osisp_labs.Common.{
  ℕ, ◌+◌, ◌-◌, ◌≤◌, ◌<◌, ◌≡◌, refl, ap, ◌∙◌, sym, subst, List, [], ◌∷◌, ◌++◌, arith, false, ◌==◌,
  some, none, Option,
}
use native.Mathlib.Decide.{ℕ_discrete}
use osisp_labs.Message.{Message}
use osisp_labs.CondQueue
use osisp_labs.CondQueue.Invariant.{contents}
use osisp_labs.SemQueue.{
  add_message, get_message, increm_size, discr_size, System, Event, reserve, add, claim, get, grow,
  shrink, step, delivered, produced,
}
use osisp_labs.SemQueue.Invariant.{
  IsValid, counting, messages, waiting, add_message_lem, get_message_lem, increm_size_lem,
  discr_size_lem,
}

-- When resizing is harmless: growing with a slot free and the messages in one piece, shrinking with
-- a free slot that no thread has got, and another.
abbrev pub IsSafe : System → Event → Type 0
IsSafe s (grow _) = (s.queue.head ≤ s.queue.tail) × (messages s < s.queue.size_queue)
IsSafe s (shrink _) = (0 < s.queue.empty) × (messages s + 1 < s.queue.size_queue)
IsSafe s _ = Unit

-- What one event leaves: a valid queue that goes on, and the messages moved.
abbrev pub Moves : System → Event → System → Type 0
Moves s e s' =
    IsValid s' × (s'.stuck ≡ false) × (waiting s ++ produced e ≡ delivered s e ++ waiting s')

abbrev Leads : System → Event → Option System → Type 0
Leads s e none = Unit
Leads s e (some s') = Moves s e s'

append_nil : (xs : List Message) → xs ++ [] ≡ xs
append_nil [] = refl
append_nil (x ∷ xs) = ap (◌∷◌ x) (append_nil xs)

-- A system with `n` messages, as the lemmas on its queue see it.
IsValid-at :
    (t : System) (n : ℕ)
    → messages t ≡ n
    → CondQueue.Invariant.IsValid (counting t.queue n)
    → t.queue.empty + t.reserved + n ≡ t.queue.size_queue
    → IsValid t × (waiting t ≡ contents (counting t.queue n))
IsValid-at t n e ring slots = (
  record {
    ring = subst (λ k. CondQueue.Invariant.IsValid (counting t.queue k)) (sym e) ring;
    slots = ap (λ k. t.queue.empty + t.reserved + k) e ∙ slots;
  },
  ap (λ k. contents (counting t.queue k)) e,
)

module _ {s : System} (v : IsValid s) (free : s.stuck ≡ false) where
  add-Leads : (msg : Message) → Leads s (add msg) (step s (add msg))
  unfolding step delivered
  add-Leads msg = elim (ℕ_discrete s.reserved 0) [
    | yes none_left ↦ rw (none_left) tt
    | no room ↦
        let some_left : (s.reserved == 0) ≡ false = ground arith in
        let (valid, c) =
          add_message_lem s.queue (messages s) msg v.ring (omega (arith, v.slots, room)) in
        rw (some_left, free)
          (let s' : System = record s {
            queue = add_message msg s.queue;
            reserved = s.reserved - 1;
            stuck = false;
          } in
            let (valid', same) =
              IsValid-at s' (messages s + 1) (omega arith) valid (omega (arith, v.slots, room)) in
            (valid', refl, sym (same ∙ c)))
  ]

  get-Leads : Leads s get (step s get)
  unfolding step delivered
  get-Leads = elim (ℕ_discrete s.claimed 0) [
    | yes none_left ↦ rw (none_left) tt
    | no claimed ↦
        let some_left : (s.claimed == 0) ≡ false = ground arith in
        let (valid, c) = get_message_lem s.queue (messages s) v.ring (omega arith) in
        rw (some_left, free)
          (let s' : System = record s {
            queue = (get_message s.queue).1;
            claimed = s.claimed - 1;
            stuck = false;
          } in
            let (valid', same) =
              IsValid-at s' (messages s - 1) (omega arith) valid (omega (arith, v.slots)) in
            (
              valid',
              refl,
              append_nil (waiting s) ∙ c ∙ ap (◌∷◌ (get_message s.queue).0) (sym same),
            ))
  ]

  reserve-Leads : Leads s reserve (step s reserve)
  unfolding step delivered
  reserve-Leads = elim (ℕ_discrete s.queue.empty 0) [
    | yes none_left ↦ rw (none_left) tt
    | no slots ↦
        let some_left : (s.queue.empty == 0) ≡ false = ground arith in
        rw (some_left)
          (record { ring = v.ring; slots = omega (arith, v.slots) }, free, append_nil (waiting s))
  ]

  claim-Leads : Leads s claim (step s claim)
  unfolding step delivered
  claim-Leads = elim (ℕ_discrete s.queue.full 0) [
    | yes none_left ↦ rw (none_left) tt
    | no slots ↦
        let some_left : (s.queue.full == 0) ≡ false = ground arith in
        rw (some_left) (
          let s' : System = record s {
            queue = record s.queue { full = s.queue.full - 1 };
            claimed = s.claimed + 1;
          } in
          let (valid', same) = IsValid-at s' (messages s) (omega arith) v.ring v.slots in
          (valid', free, append_nil (waiting s) ∙ sym same))
  ]

  grow-Leads : (junk : Message) → IsSafe s (grow junk) → Leads s (grow junk) (step s (grow junk))
  unfolding step delivered
  grow-Leads junk (flat, room) =
      let (valid, c, size, e, f) = increm_size_lem s.queue (messages s) junk v.ring flat room in
      rw (free) (
        let s' : System = record s { queue = increm_size junk s.queue; stuck = false } in
        let (valid', same) =
          IsValid-at s' (messages s) (omega (arith, f)) valid (omega (arith, v.slots, e, size)) in
        (valid', refl, append_nil (waiting s) ∙ sym (same ∙ c)))

  shrink-Leads :
      (junk : Message) → IsSafe s (shrink junk) → Leads s (shrink junk) (step s (shrink junk))
  unfolding step delivered
  shrink-Leads junk (slot_free, room) =
      let (valid, c, size, e, f, goes_on) =
        discr_size_lem s.queue (messages s) junk v.ring (omega arith) room slot_free in
      rw (free) (
        let s' : System = record s {
          queue = (discr_size junk s.queue).1;
          stuck = (discr_size junk s.queue).0;
        } in
        let (valid', same) =
          IsValid-at s' (messages s) (omega (arith, f)) valid
            (omega (arith, v.slots, e, size, slot_free)) in
        (valid', goes_on, append_nil (waiting s) ∙ sym (same ∙ c)))

  leads : (e : Event) → IsSafe s e → Leads s e (step s e)
  leads reserve safe = reserve-Leads
  leads (add msg) safe = add-Leads msg
  leads claim safe = claim-Leads
  leads get safe = get-Leads
  leads (grow junk) safe = grow-Leads junk safe
  leads (shrink junk) safe = shrink-Leads junk safe

-- From a valid system in which nobody is stuck, a step that a thread can do, with resizing only
-- where it is harmless, leaves every slot filled, free or promised, nobody stuck, and moves the
-- messages as a first-in first-out queue does.
pub step-Moves :
    {s s' : System} (e : Event)
    → IsValid s
    → s.stuck ≡ false
    → IsSafe s e
    → step s e ≡ some s'
    → Moves s e s'
step-Moves {s} e v free safe done = subst (Leads s e) done (leads v free e safe)

-- Runs with the messages put in, those taken out, and the system at the end.
pub data Run : System → List Message → List Message → System → Type 0 where
  stop : {s : System} → Run s [] [] s
  go :
      {s s' t : System} {ins outs : List Message} (e : Event)
      → IsSafe s e
      → step s e ≡ some s'
      → Run s' ins outs t
      → Run s (produced e ++ ins) (delivered s e ++ outs) t
