-- ===== src/SharedQueue/Filled.antt =====
-- The queue of Lab4/lab4Main.c is filled once and never read, and all that is written is mapped.
use osisp_labs.Common.{
  ◌++◌, ◌%◌, ℕ, zero, suc, ◌+◌, ◌*◌, ◌/◌, ◌≡◌, ◌≤◌, ◌<◌, refl, ap, subst, false, ltb, Bool-cases,
  Option, Option-cases, inl, inr, ◌⊎◌, none, some, List, [], ◌∷◌, ◌==◌, if◌then◌else◌, arith,
}
use mathlib.Core.Option.{some-injective}
use osisp_labs.SharedQueue.{
  Shared, init_queue, Event, reserve, leave, woken, add, consume, sem_wait, add_message, step, next,
  run, data_bytes, mapped, queue_bytes,
}

-- No copy ends behind that many bytes from the start of the queue on.
abbrev pub AreWithin : ℕ → List (ℕ × ℕ) → Type 0
AreWithin limit [] = Unit
AreWithin limit ((place, bytes) ∷ copies) =
    (queue_bytes + place + bytes ≤ limit) × AreWithin limit copies

AreWithin-append :
    (limit : ℕ) (xs ys : List (ℕ × ℕ))
    → AreWithin limit xs
    → AreWithin limit ys
    → AreWithin limit (xs ++ ys)
AreWithin-append limit [] ys h k = k
AreWithin-append limit ((place, bytes) ∷ xs) ys h k = (h.0, AreWithin-append limit xs ys h.1 k)

data_bytes-le : (size : ℕ) → data_bytes size ≤ 256
unfolding data_bytes
data_bytes-le size = elim (Bool-cases (size % 256 == 0)) [
  | inl e ↦ rw e (omega arith)
  | inr e ↦ rw e (omega arith)
]

-- Nothing has been read, each message stands behind the one before, and each slot has been taken
-- from the semaphore.
pub record IsFilled (s : Shared) : Type 0 where
  pub unread : (s.head ≡ 0) × (s.count_get ≡ 0)
  pub slots : s.empty + s.reserved + s.count_add ≤ 10
  pub place : s.count_add < 10 → s.tail ≡ 272 * s.count_add
  pub counted : s.full ≤ s.count_add
  pub inside : AreWithin (mapped 4096) s.copies

init_queue-IsFilled : IsFilled init_queue
unfolding init_queue
init_queue-IsFilled = record {
  unread = (refl, refl);
  slots = omega arith;
  place = λ h. refl;
  counted = omega arith;
  inside = tt;
}

sem_wait_lem : (n m : ℕ) → sem_wait n ≡ some m → n ≡ suc m
unfolding sem_wait
sem_wait_lem zero m e = absurd (cc)
sem_wait_lem (suc n) m e = ap suc (some-injective _ _ e)

-- The tail goes on by one slot, but for the last.
next_tail :
    (tail k : ℕ)
    → tail ≡ 272 * k
    → k + 1 < 10
    → (if (tail + 16 + 256) / 272 == 10 then 0 else tail + 16 + 256) ≡ 272 * (k + 1)
next_tail tail k e h =
    let inside : ((tail + 16 + 256) / 272 == 10) ≡ false = ground (arith, e, h) in
    rw inside (omega arith)

add_message-IsFilled :
    (s : Shared) (size n : ℕ)
    → IsFilled s
    → s.reserved ≡ suc n
    → IsFilled (add_message size (record s { reserved = n }))
unfolding add_message
add_message-IsFilled s size n h e =
    let at : s.tail ≡ 272 * s.count_add = h.place (omega (arith, h.slots, e)) in
    let last : s.count_add < 10 = omega (arith, h.slots, e) in
    record {
      unread = h.unread;
      slots = omega (arith, h.slots, e);
      place = λ k. next_tail s.tail s.count_add (h.place (omega arith)) k;
      counted = omega (arith, h.counted);
      inside =
          AreWithin-append (mapped 4096) s.copies _ h.inside
            (omega (arith, at, last), (omega (arith, at, last, data_bytes-le size), tt));
    }

unfoldable pub After : Option Shared → Type 0
After none = Unit
After (some s) = IsFilled s

step-IsFilled : (s : Shared) (e : Event) → IsFilled s → After (step s e)
unfolding step After
step-IsFilled s reserve h = elim (Option-cases (sem_wait (s.empty))) [
  | inl e ↦ rw e tt
  | inr (n, e) ↦ rw e (
      let taken = sem_wait_lem (s.empty) n e in
      record {
        unread = h.unread;
        slots = omega (arith, h.slots, taken);
        place = h.place;
        counted = omega (arith, h.counted);
        inside = h.inside;
      })
]
step-IsFilled s leave h = elim (Option-cases (sem_wait (s.empty))) [
  | inl e ↦ rw e tt
  | inr (n, e) ↦ rw e (
      let taken = sem_wait_lem (s.empty) n e in
      record {
        unread = h.unread;
        slots = omega (arith, h.slots, taken);
        place = h.place;
        counted = omega (arith, h.counted);
        inside = h.inside;
      })
]
step-IsFilled s woken h = h
step-IsFilled s (add size) h = elim (Option-cases (sem_wait (s.reserved))) [
  | inl e ↦ rw e tt
  | inr (n, e) ↦ rw e (add_message-IsFilled s size n h (sem_wait_lem (s.reserved) n e))
]
step-IsFilled s consume h = elim (Option-cases (sem_wait (s.full))) [
  | inl e ↦ rw e tt
  | inr (n, e) ↦ rw e (
      let taken = sem_wait_lem (s.full) n e in
      record {
        unread = h.unread;
        slots = omega (arith, h.slots);
        place = h.place;
        counted = omega (arith, h.counted, taken);
        inside = h.inside;
      })
]

next-IsFilled : (s : Option Shared) (e : Event) → After s → After (next s e)
unfolding After
next-IsFilled none e h = tt
next-IsFilled (some s) e h = step-IsFilled s e h

run-After : (s : Option Shared) (es : List Event) → After s → After (run s es)
unfolding run
run-After s [] h = h
run-After s (e ∷ es) h = run-After (next s e) es (next-IsFilled s e h)

-- In every run of producers and consumers from the start, in which no signal
-- ends a wait for the mutex, as far as it can go: no message is ever read, at most ten are added, and until there are ten the next one goes into the slot
-- behind the last.
pub run-IsFilled :
    (es : List Event) (s : Shared)
    → run (some init_queue) es ≡ some s
    → (s.count_get ≡ 0) × (s.count_add ≤ 10) × ((s.count_add ≡ 10) ⊎ (s.tail ≡ 272 * s.count_add))
unfolding After
run-IsFilled es s e =
    let h : IsFilled s = subst After e (run-After (some init_queue) es init_queue-IsFilled) in
    let bound : s.count_add ≤ 10 = omega (arith, h.slots) in
    elim (Bool-cases (ltb s.count_add 10)) [
      | inl k ↦ (h.unread.1, bound, inr (h.place (ground (arith, k))))
      | inr k ↦ (h.unread.1, bound, inl (ground (arith, k, bound)))
    ]

-- When ten messages have been added in such a run no producer goes on, whatever the consumers do:
-- none can reserve a slot, and none has one.
pub filled_for_ever :
    (es : List Event) (s : Shared) (size : ℕ)
    → run (some init_queue) es ≡ some s
    → s.count_add ≡ 10
    → (step s reserve ≡ none) × (step s (add size) ≡ none)
unfolding After step sem_wait
filled_for_ever es s size e ten =
    let h : IsFilled s = subst After e (run-After (some init_queue) es init_queue-IsFilled) in
    let no_slot : s.empty ≡ 0 = omega (arith, h.slots) in
    let no_one : s.reserved ≡ 0 = omega (arith, h.slots) in (rw no_slot refl, rw no_one refl)

-- In every run of producers and consumers from the start, in which no signal ends a wait for the
-- mutex, as far as it can go: with pages of 4096 bytes, no copy of a message or of its data ends
-- behind the mapped memory.
pub copies_mapped :
    (es : List Event) (s : Shared)
    → run (some init_queue) es ≡ some s
    → AreWithin (mapped 4096) s.copies
unfolding After
copies_mapped es s e =
    let h : IsFilled s = subst After e (run-After (some init_queue) es init_queue-IsFilled) in
    h.inside
