-- ===== src/CondQueue.antt =====
-- Lab5/lab5_2.c: the message queue between producer and consumer threads, guarded by a mutex and
-- two condition variables. All accesses stand inside the mutex, and a thread that waits on a
-- condition variable has released it and tests again, so a critical section is one step.
pub mod Invariant
pub mod Steps
pub mod Resize
pub mod Refine
mod Tests
use osisp_labs.Common.{
  ℕ, ◌+◌, ◌-◌, Option, none, some, List, ltb, leb, ◌==◌, if◌then◌else◌, get_or, set, realloc,
  replicate,
}
use osisp_labs.Message.{Message}
use osisp_labs.Ring.{zero_message, advance, shift_up, move_down, rewind, shift_down}

-- `MessageQueue`, with the global `sizeQueue`.
pub record MessageQueue : Type 0 where
  pub buffer : List Message
  pub head : ℕ
  pub tail : ℕ
  pub count_add : ℕ
  pub count_get : ℕ
  pub count_msg : ℕ
  pub size_queue : ℕ

-- `malloc` leaves any contents: `junk` stands in every slot.
unfoldable pub init_queue : Message → MessageQueue
init_queue junk = record {
  buffer = replicate 10 junk;
  head = 0;
  tail = 0;
  count_add = 0;
  count_get = 0;
  count_msg = 0;
  size_queue = 10;
}

-- The critical section of `workProducer`. `none`: the thread waits on `empty` and nothing changed.
unfoldable pub work_producer : Message → MessageQueue → Option MessageQueue
work_producer msg q =
    if leb q.size_queue q.count_msg
    then none
    else some (record q {
      count_add = q.count_add + 1;
      buffer = set q.buffer q.tail msg;
      tail = advance q.size_queue q.tail;
      count_msg = q.count_msg + 1;
    })

-- The critical section of `workConsumer`, with the message that it copies out. `none`: the thread
-- waits on `full`.
unfoldable pub work_consumer : MessageQueue → Option (Message × MessageQueue)
work_consumer q =
    if q.count_msg == 0
    then none
    else some (
      get_or q.buffer q.head zero_message,
      record q {
        count_get = q.count_get + 1;
        buffer = set q.buffer q.head zero_message;
        head = advance q.size_queue q.head;
        count_msg = q.count_msg - 1;
      },
    )

-- `incremSize`; `junk` is what the slot that `realloc` adds holds.
unfoldable pub increm_size : Message → MessageQueue → MessageQueue
increm_size junk q =
    let size = q.size_queue + 1 in
    let grown = realloc junk size q.buffer in
    if ltb q.tail q.head
    then record q {
      size_queue = size;
      buffer = shift_up (size - 1) q.head grown;
      head = q.head + 1;
    }
    else record q { size_queue = size; buffer = grown }

-- The three cases of `discrSize` before the buffer is cut.
unfoldable pub pack : MessageQueue → MessageQueue
pack q =
    if ltb q.head q.tail
    then record q {
      buffer = move_down (q.tail - q.head) 0 q.head q.buffer;
      head = (rewind q.head q.tail).0;
      tail = (rewind q.head q.tail).1;
    }
    else if q.head == q.tail
    then record q { head = 0; tail = 0 }
    else record q {
      buffer = shift_down (q.size_queue - q.head) 0 q.head q.buffer;
      head = q.head - 1;
    }

-- `discrSize`
unfoldable pub discr_size : Message → MessageQueue → MessageQueue
unfolding pack
discr_size junk q =
    if ltb q.count_msg q.size_queue
    then record (pack q) {
      size_queue = q.size_queue - 1;
      buffer = realloc junk (q.size_queue - 1) (pack q).buffer;
    }
    else q
