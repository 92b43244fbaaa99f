-- ===== src/CondQueue/Refine.antt =====
-- Runs of the queue of Lab5/lab5_2.c against a bounded first-in first-out queue.
use osisp_labs.Common.{
  ℕ, ◌+◌, ◌-◌, ◌≤◌, ◌<◌, ◌≡◌, ◌⊎◌, refl, ap, ap₂, ◌∙◌, sym, List, [], ◌∷◌, ◌++◌, some, none, length,
  arith, true, false, subst, if◌then◌else◌, ltb,
}
use native.Mathlib.Decide.{dec_lt, ℕ_discrete}
use osisp_labs.Message.{Message}
use osisp_labs.Ring.{window}
use osisp_labs.Ring.Window.{length-window}
use osisp_labs.CondQueue.{MessageQueue, work_producer, work_consumer, increm_size, discr_size}
use osisp_labs.CondQueue.Invariant.{IsValid, contents}
use osisp_labs.CondQueue.Steps.{
  work_producer_full, work_producer_room, work_consumer_empty, work_consumer_nonempty,
}
use osisp_labs.CondQueue.Resize.{increm_size_refines, contents-discr_size, discr_size-IsValid}

-- What a thread does in one critical section, and what it sees.
pub data Op : Type 0 where
  produce : Message → Op
  consume : Op
  grow : Message → Op
  shrink : Message → Op

pub data Reply : Type 0 where
  waits : Reply
  added : Reply
  delivered : Message → Reply
  resized : Reply

unfoldable pub step : MessageQueue → Op → Reply × MessageQueue
step q (produce m) = elim (work_producer m q) [ none ↦ (waits, q) | some q' ↦ (added, q') ]
step q consume = elim (work_consumer q) [ none ↦ (waits, q) | some (m, q') ↦ (delivered m, q') ]
step q (grow junk) = (resized, increm_size junk q)
step q (shrink junk) = (resized, discr_size junk q)

-- The abstract queue: how many messages it may hold, and those that it holds, oldest first.
pub record Fifo : Type 0 where
  pub capacity : ℕ
  pub items : List Message

unfoldable pub fifo_get : ℕ → List Message → Reply × Fifo
fifo_get c [] = (waits, record { capacity = c; items = [] })
fifo_get c (m ∷ ms) = (delivered m, record { capacity = c; items = ms })

unfoldable pub fifo_step : Fifo → Op → Reply × Fifo
unfolding fifo_get
fifo_step f (produce m) =
    if ltb (length f.items) f.capacity
    then (added, record f { items = f.items ++ (m ∷ []) })
    else (waits, f)
fifo_step f consume = fifo_get f.capacity f.items
fifo_step f (grow _) = (resized, record f { capacity = f.capacity + 1 })
fifo_step f (shrink _) =
    if ltb (length f.items) f.capacity
    then (resized, record f { capacity = f.capacity - 1 })
    else (resized, f)

-- When resizing is harmless: growing before the queue is full, shrinking with two slots free (or
-- none, where the code does nothing).
abbrev pub IsSafe : Fifo → Op → Type 0
IsSafe f (produce _) = Unit
IsSafe f consume = Unit
IsSafe f (grow _) = length f.items < f.capacity
IsSafe f (shrink _) = (length f.items + 1 < f.capacity) ⊎ (f.capacity ≤ length f.items)

abbrev pub view : MessageQueue → Fifo
view q = record { capacity = q.size_queue; items = contents q }

Fifo-eq :
    {c d : ℕ} {xs ys : List Message}
    → c ≡ d
    → xs ≡ ys
    → ◌≡◌ {A = Fifo} (record { capacity = c; items = xs }) (record { capacity = d; items = ys })
Fifo-eq p r = λ i. record { capacity = p i; items = r i }

-- What it means that one step of the queue is the same step of the abstract queue.
abbrev pub Matches : MessageQueue → Fifo → Op → Type 0
Matches q f op =
    ((step q op).0 ≡ (fifo_step f op).0)
    × (view (step q op).1 ≡ (fifo_step f op).1)
    × IsValid (step q op).1

contents-empty : (q : MessageQueue) → q.count_msg ≡ 0 → contents q ≡ []
unfolding window
contents-empty q e = rw e

discr_size_full :
    (junk : Message) (q : MessageQueue) → q.size_queue ≤ q.count_msg → discr_size junk q ≡ q
unfolding discr_size
discr_size_full junk q h = let t : ltb q.count_msg q.size_queue ≡ false = ground arith in rw t

count-contents : (q : MessageQueue) → length (contents q) ≡ q.count_msg
count-contents q = length-window q.buffer q.size_queue q.head q.count_msg

module _ {q : MessageQueue} (v : IsValid q) where
  produce-Matches : (m : Message) → Matches q (view q) (produce m)
  unfolding step fifo_step
  produce-Matches m = elim (dec_lt q.count_msg q.size_queue) [
    | yes room ↦
        let (q', e, v', c, s) = work_producer_room v m room in
        let t : ltb (length (contents q)) q.size_queue ≡ true = ground (arith, count-contents q) in
        rw (e, step, t) (refl, Fifo-eq s c, v')
    | no full ↦
        let e = work_producer_full v m (omega arith) in
        let t : ltb (length (contents q)) q.size_queue ≡ false = ground (arith, count-contents q) in
        rw (e, step, t) (refl, refl, v)
  ]

  consume-Matches : Matches q (view q) consume
  unfolding step fifo_step fifo_get
  consume-Matches = elim (ℕ_discrete q.count_msg 0) [
    | yes empty ↦ rw (work_consumer_empty v empty, step, contents-empty q empty) (refl, refl, v)
    | no some_left ↦
        let (m, q', e, v', c, s) = work_consumer_nonempty v (omega arith) in
        rw (e, step, c) (refl, Fifo-eq s refl, v')
  ]

  shrink-Matches :
      (junk : Message) → IsSafe (view q) (shrink junk) → Matches q (view q) (shrink junk)
  unfolding step fifo_step
  shrink-Matches junk safe = elim (dec_lt q.count_msg q.size_queue) [
    | yes room ↦
        let (c, s, _, _) = contents-discr_size v junk room (ground (arith, count-contents q)) in
        let t : ltb (length (contents q)) q.size_queue ≡ true = ground (arith, count-contents q) in
        rw t (
          refl,
          Fifo-eq s c,
          discr_size-IsValid v junk room (ground (arith, count-contents q))
              (ground (arith, count-contents q)),
        )
    | no full ↦
        let t : ltb (length (contents q)) q.size_queue ≡ false = ground (arith, count-contents q) in
        rw (t, discr_size_full junk q (omega arith)) (refl, refl, v)
  ]

  -- Each step of the queue is that step of the abstract queue.
  pub step-Matches : (op : Op) → IsSafe (view q) op → Matches q (view q) op
  unfolding step fifo_step
  step-Matches (produce m) safe = produce-Matches m
  step-Matches consume safe = consume-Matches
  step-Matches (grow junk) safe =
      let (valid, c, s) = increm_size_refines v junk (omega (arith, count-contents q)) in
      (refl, Fifo-eq s c, valid)
  step-Matches (shrink junk) safe = shrink-Matches junk safe

unfoldable pub run : MessageQueue → List Op → List Reply
run q [] = []
run q (op ∷ ops) = (step q op).0 ∷ run (step q op).1 ops

unfoldable pub fifo_run : Fifo → List Op → List Reply
fifo_run f [] = []
fifo_run f (op ∷ ops) = (fifo_step f op).0 ∷ fifo_run (fifo_step f op).1 ops

-- Every resizing of the run is harmless where it stands.
abbrev pub IsSafeRun : Fifo → List Op → Type 0
IsSafeRun f [] = Unit
IsSafeRun f (op ∷ ops) = IsSafe f op × IsSafeRun (fifo_step f op).1 ops

run_refines-view :
    (ops : List Op) {q : MessageQueue} (f : Fifo)
    → IsValid q
    → view q ≡ f
    → IsSafeRun f ops
    → run q ops ≡ fifo_run f ops
unfolding run fifo_run
run_refines-view [] f v e safe = refl
run_refines-view (op ∷ ops) {q} f v e safe =
    let (r, n, v') = step-Matches v op (subst (λ g. IsSafe g op) (sym e) safe.0) in
    ap₂ ◌∷◌ (r ∙ ap (λ g. (fifo_step g op).0) e)
      (run_refines-view ops (fifo_step f op).1 v' (n ∙ ap (λ g. (fifo_step g op).1) e) safe.1)

-- From a valid queue the threads see, in every order of their critical sections, exactly what a
-- bounded first-in first-out queue with the same messages would show them, if no growing meets a
-- full queue and no shrinking one with a single free slot.
pub run_refines :
    (ops : List Op) {q : MessageQueue}
    → IsValid q
    → IsSafeRun (view q) ops
    → run q ops ≡ fifo_run (view q) ops
run_refines ops {q} v safe = run_refines-view ops (view q) v refl safe
