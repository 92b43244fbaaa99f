-- ===== src/CondQueue/Tests.antt =====
-- Runs of the queue of Lab5/lab5_2.c on small buffers, and the theorems at such buffers.
use osisp_labs.Common.{ℕ, ◌≡◌, refl, List, [], ◌∷◌, length, arith, realloc}
use osisp_labs.Message.{Message}
use osisp_labs.Ring.{zero_message, shift_up, move_down, shift_down, rewind, window}
use osisp_labs.CondQueue.{MessageQueue, work_producer, work_consumer, increm_size, discr_size}
use osisp_labs.CondQueue.Resize.{discr_size_overrun}
use osisp_labs.CondQueue.Refine.{
  Op, produce, consume, grow, shrink, waits, added, delivered, resized, step, run, fifo_run,
  fifo_step, view, run_refines,
}

abbrev letter : ℕ → Message
letter n = record { type = 83; hash = n; size = 1; bytes = n ∷ [] }

-- 1 and 2 wait, round the end of three slots
abbrev wrapped : MessageQueue
wrapped = record {
  buffer = letter 2 ∷ zero_message ∷ letter 1 ∷ [];
  head = 2;
  tail = 1;
  count_add = 5;
  count_get = 3;
  count_msg = 2;
  size_queue = 3;
}

-- 1, 2 and 3 fill the slots
abbrev packed : MessageQueue
packed = record wrapped {
  buffer = letter 3 ∷ letter 1 ∷ letter 2 ∷ [];
  head = 1;
  count_get = 2;
  count_msg = 3;
}

-- 1 and 2 fill all slots but the last
abbrev flat : MessageQueue
flat = record wrapped { buffer = letter 1 ∷ letter 2 ∷ zero_message ∷ []; head = 0; tail = 2 }

abbrev script : List Op
script =
    grow (letter 9)
    ∷ produce (letter 3)
    ∷ consume
    ∷ shrink (letter 9)
    ∷ consume
    ∷ consume
    ∷ consume
    ∷ []

run-wrapped :
    run wrapped script
    ≡ resized
      ∷ added
      ∷ delivered (letter 1)
      ∷ resized
      ∷ delivered (letter 2)
      ∷ delivered (letter 3)
      ∷ waits
      ∷ []
unfolding run step work_producer work_consumer increm_size discr_size shift_up move_down shift_down
    rewind realloc
run-wrapped = refl

discr_size_overrun_example :
    (discr_size zero_message flat).tail ≡ length (discr_size zero_message flat).buffer
discr_size_overrun_example =
    discr_size_overrun {q = flat} (omega arith) zero_message (omega arith) (omega arith) refl
      (omega arith)

run_refines_example : run wrapped script ≡ fifo_run (view wrapped) script
unfolding fifo_step window
run_refines_example = run_refines script {q = wrapped} (omega arith) (omega arith)
