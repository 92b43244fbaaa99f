-- ===== src/SharedQueue/Mutex/Tests.antt =====
-- Two producers of Lab4 at the mutex, and the theorems at them.
use osisp_labs.Common.{ℕ, ◌≡◌, refl, arith, false, Option, none, some, List, [], ◌∷◌, ◌++◌}
use osisp_labs.SharedQueue.{init_queue, message_bytes}
use osisp_labs.SharedQueue.Mutex.{
  outside, waiting, counting, System, Event, arrives, enters, works, leaves, run, start,
}
use osisp_labs.SharedQueue.Mutex.Sections.{in_section, fill}
use osisp_labs.SharedQueue.Mutex.Exclusive.{one_in_section, sections_atomic}
use osisp_labs.SharedQueue.Mutex.Broken.{state, interrupted_overwrites}

-- The second process comes while the first is in the section.
abbrev half : List Event
half = arrives 0 5 ∷ enters 0 ∷ works 0 ∷ arrives 1 9 ∷ works 0 ∷ []

abbrev whole : List Event
whole = half ++ (works 0 ∷ works 0 ∷ works 0 ∷ works 0 ∷ works 0 ∷ leaves 0 ∷ [])

one_in_section_example : ◌≡◌ {A = ℕ} 0 0
unfolding run init_queue
one_in_section_example = one_in_section init_queue half _ 0 0 tt refl refl refl

abbrev or_start : Option System → System
or_start none = start init_queue
or_start (some s) = s

unfoldable last : System
unfolding run
last = or_start (run whole (start init_queue))

whole_runs : run whole (start init_queue) ≡ some last
unfolding run last init_queue
whole_runs = refl

mutex_free : last.mutex ≡ 1
unfolding run last init_queue
mutex_free = refl

sections_atomic_example :
    (sizes : List ℕ) × (last.shared ≡ fill sizes init_queue)
    × ((i : ℕ) → in_section (last.pc i) ≡ false)
sections_atomic_example = sections_atomic init_queue whole last tt whole_runs mutex_free

interrupted_overwrites_example :
    (es : List Event) × (s : System) × (run es (
        state
          (λ _. outside)
          0
          1
          (λ e. absurd (omega (arith, e)))
          init_queue
          0
          (waiting 3)
          (counting 4))
      ≡ some s)
    × (s.mutex ≡ 2)
    × (rest : List (ℕ × ℕ)) × (s.shared.copies
        ≡ (([] ++ ((0, message_bytes) ∷ [])) ++ ((0, message_bytes) ∷ [])) ++ rest)
unfolding init_queue
interrupted_overwrites_example =
    interrupted_overwrites (λ _. outside) 0 1 (λ e. absurd (omega (arith, e))) 3 4 init_queue
