-- ===== src/SharedQueue/Tests.antt =====
-- The shared queue of Lab4/lab4Main.c and its parent process in short runs.
use osisp_labs.Common.{
  ℕ, zero, suc, ◌*◌, ◌≤◌, ◌≡◌, ◌⊎◌, refl, Option, none, some, List, [], ◌∷◌, ◌++◌, arith, get_elem?,
  replicate, set,
}
use osisp_labs.SharedQueue.{
  Shared, init_queue, Event, reserve, add, consume, step, run, data_bytes, mapped,
}
use osisp_labs.SharedQueue.Filled.{AreWithin, run-IsFilled, filled_for_ever, copies_mapped}
use osisp_labs.SharedQueue.Parent.{Pool, child, main, kill_usr1}
use osisp_labs.SharedQueue.Parent.Tables.{IsPool}

-- A message of 200 bytes, so many times.
abbrev adds : ℕ → List Event
adds zero = []
adds (suc n) = reserve ∷ add 200 ∷ adds n

abbrev got : Option Shared → Shared
got none = init_queue
got (some s) = s

-- What is there after ten messages, which the consumers have counted off.
abbrev ten : Shared
unfolding run init_queue
ten = got (run (some init_queue) (adds 10 ++ (consume ∷ consume ∷ [])))

run-IsFilled_example :
    (ten.count_get ≡ 0)
    × (ten.count_add ≤ 10)
    × ((ten.count_add ≡ 10) ⊎ (ten.tail ≡ 272 * ten.count_add))
unfolding run init_queue
run-IsFilled_example = run-IsFilled (adds 10 ++ (consume ∷ consume ∷ [])) ten refl

two_more_wait : (step ten reserve ≡ none) × (step ten (add 7) ≡ none)
unfolding run init_queue
two_more_wait = filled_for_ever (adds 10 ++ (consume ∷ consume ∷ [])) ten 7 refl refl

copies_mapped_example : AreWithin (mapped 4096) ten.copies
unfolding run init_queue
copies_mapped_example = copies_mapped (adds 10 ++ (consume ∷ consume ∷ [])) ten refl

-- The last copy ends behind the length that was asked for, and in the page.
last_copy : get_elem? ten.copies 19 ≡ some (2464, 200)
unfolding run init_queue data_bytes
last_copy = refl

abbrev one_child : Pool
one_child = record { count = 1; pid_mas = replicate 20 (child 5) }

one_child-IsPool : IsPool one_child
one_child-IsPool = record { room = omega arith; whole = refl }

-- A producer is started and signalled, then the program ends.
parent_run :
    main ((b'p', b'+', child 4) ∷ (b'p', b'-', child 4) ∷ (b'q', b'\n', child 4) ∷ []) (record {
      producers = record { count = 0; pid_mas = replicate 20 (child 0) };
      consumers = one_child;
    })
    ≡ some (
      record {
        producers = record { count = 0; pid_mas = set (replicate 20 (child 0)) 0 (child 4) };
        consumers = one_child;
      },
      kill_usr1 (child 4) ∷ [],
    )
unfolding main
parent_run = refl
