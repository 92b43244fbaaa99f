-- ===== src/CondQueue/Invariant.antt =====
-- What holds of the queue of Lab5/lab5_2.c between two critical sections, and its contents.
use osisp_labs.Common.{◌+◌, ◌≤◌, ◌<◌, ◌≡◌, List, length, arith}
use osisp_labs.Message.{Message}
use osisp_labs.Ring.{slot, window}
use osisp_labs.CondQueue.{MessageQueue, init_queue}

pub record IsValid (q : MessageQueue) : Type 0 where
  pub stored : length q.buffer ≡ q.size_queue
  pub head_in : q.head < q.size_queue
  pub count_in : q.count_msg ≤ q.size_queue
  pub tail_at : q.tail ≡ slot q.size_queue q.head q.count_msg
  pub counted : q.count_add ≡ q.count_get + q.count_msg

-- The messages that wait, oldest first.
abbrev pub contents : MessageQueue → List Message
contents q = window q.buffer q.size_queue q.head q.count_msg

pub init_queue-IsValid : (junk : Message) → IsValid (init_queue junk)
unfolding init_queue
init_queue-IsValid junk = ground arith
