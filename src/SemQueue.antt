-- ===== src/SemQueue.antt =====
-- Lab5/lab5_1.c: the message queue between threads, guarded by a mutex and two semaphores that
-- count free and filled slots. A thread waits on its semaphore before it takes the mutex; between
-- the two it holds a slot that no counter shows. `System` counts these threads.
pub mod Invariant
pub mod Runs
pub mod Resize
mod Tests
use osisp_labs.Common.{
  ℕ, ◌+◌, ◌-◌, Option, none, some, List, [], ◌∷◌, ltb, leb, ◌==◌, if◌then◌else◌, get_or, set,
  realloc, replicate, Bool, true, false,
}
use osisp_labs.Message.{Message}
use osisp_labs.Ring.{zero_message, advance, shift_up, move_down, rewind, shift_down}

-- `MessageQueue`, with the global `sizeQueue`.
pub record MessageQueue : Type 0 where
  pub buffer : List Message
  pub head : ℕ
  pub tail : ℕ
  pub count_add : ℕ
  pub count_get : ℕ
  pub empty : ℕ
  pub full : ℕ
  pub size_queue : ℕ

unfoldable pub init_queue : Message → MessageQueue
init_queue junk = record {
  buffer = replicate 10 junk;
  head = 0;
  tail = 0;
  count_add = 0;
  count_get = 0;
  empty = 10;
  full = 0;
  size_queue = 10;
}

-- `workProducer` between `pthread_mutex_lock` and `pthread_mutex_unlock`
unfoldable pub add_message : Message → MessageQueue → MessageQueue
add_message msg q = record q {
  count_add = q.count_add + 1;
  buffer = set q.buffer q.tail msg;
  tail = advance q.size_queue q.tail;
  full = q.full + 1;
}

-- `workConsumer` between `pthread_mutex_lock` and `pthread_mutex_unlock`, with the message that it
-- copies out
unfoldable pub get_message : MessageQueue → Message × MessageQueue
get_message q = (
  get_or q.buffer q.head zero_message,
  record q {
    count_get = q.count_get + 1;
    buffer = set q.buffer q.head zero_message;
    head = advance q.size_queue q.head;
    empty = q.empty + 1;
  },
)

-- `incremSize`; `junk` is what the slot that `realloc` adds holds.
unfoldable pub increm_size : Message → MessageQueue → MessageQueue
increm_size junk q =
    let size = q.size_queue + 1 in
    let grown = realloc junk size q.buffer in
    if ltb q.tail q.head
    then record q {
      size_queue = size;
      empty = q.empty + 1;
      buffer = shift_up (size - 1) q.tail grown;
      tail = q.tail + 1;
    }
    else record q { size_queue = size; empty = q.empty + 1; buffer = grown }

-- The three cases of `discrSize` before the buffer is cut.
unfoldable pub pack : MessageQueue → MessageQueue
pack q =
    if ltb q.head q.tail
    then record q {
      buffer = move_down (q.tail - q.head) 0 q.head q.buffer;
      head = (rewind q.head q.tail).0;
      tail = (rewind q.head q.tail).1;
    }
    else if q.head == q.tail
    then record q { head = 0; tail = 0 }
    else record q {
      buffer = shift_down (q.size_queue - q.head) 0 q.head q.buffer;
      head = q.head - 1;
    }

-- `discrSize`, and whether it then waits on `empty`, with the mutex in its hands.
unfoldable pub discr_size : Message → MessageQueue → Bool × MessageQueue
unfolding pack
discr_size junk q =
    if ltb q.full q.size_queue
    then (
      q.empty == 0,
      record (pack q) {
        size_queue = q.size_queue - 1;
        buffer = realloc junk (q.size_queue - 1) (pack q).buffer;
        empty = q.empty - 1;
      },
    )
    else (false, q)

-- The queue; how many producers are between `sem_wait(&empty)` and the mutex, and how many
-- consumers between `sem_wait(&full)` and the mutex; whether `discrSize` waits with the mutex.
pub record System : Type 0 where
  pub queue : MessageQueue
  pub reserved : ℕ
  pub claimed : ℕ
  pub stuck : Bool

pub data Event : Type 0 where
  reserve : Event
  add : Message → Event
  claim : Event
  get : Event
  grow : Message → Event
  shrink : Message → Event

-- The events that need the mutex.
abbrev pub under_mutex : System → System → Option System
under_mutex s s' = if s.stuck then none else some s'

-- One event of a thread. `none`: no thread can do it now.
unfoldable pub step : System → Event → Option System
unfolding add_message get_message increm_size discr_size
step s reserve =
    if s.queue.empty == 0
    then none
    else some (record s {
      queue = record s.queue { empty = s.queue.empty - 1 };
      reserved = s.reserved + 1;
    })
step s (add msg) =
    if s.reserved == 0
    then none
    else under_mutex s (record s { queue = add_message msg s.queue; reserved = s.reserved - 1 })
step s claim =
    if s.queue.full == 0
    then none
    else some
        (record s { queue = record s.queue { full = s.queue.full - 1 }; claimed = s.claimed + 1 })
step s get =
    if s.claimed == 0
    then none
    else under_mutex s (record s { queue = (get_message s.queue).1; claimed = s.claimed - 1 })
step s (grow junk) = under_mutex s (record s { queue = increm_size junk s.queue })
step s (shrink junk) =
    under_mutex s
      (record s { queue = (discr_size junk s.queue).1; stuck = (discr_size junk s.queue).0 })

-- The message that an event copies out.
unfoldable pub delivered : System → Event → List Message
unfolding get_message
delivered s get = (get_message s.queue).0 ∷ []
delivered s _ = []

-- The message that an event puts in.
abbrev pub produced : Event → List Message
produced (add msg) = msg ∷ []
produced _ = []
