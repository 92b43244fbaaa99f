-- ===== src/SharedQueue.antt =====
-- Lab4/lab4Main.c: the queue of processes in shared memory. Pointers into the buffer are offsets in
-- bytes, and what is written into it is a list of places with their lengths. A section under the
-- mutex is one event, which it is as long as no signal ends a wait for the mutex: SharedQueue/Mutex.antt
-- has its stores one by one, and the runs with such a signal; a process that a signal wakes leaves its `sem_wait` without a unit. Behind
-- `exit` in `workConsumer` nothing is reached, so a consumer does no more than wait.
pub mod Filled
pub mod Parent
pub mod Mutex
mod Tests
use osisp_labs.Common.{
  ℕ, zero, suc, ◌+◌, ◌-◌, ◌*◌, ◌/◌, ◌%◌, Option, none, some, List, [], ◌∷◌, ◌++◌, ◌==◌,
  if◌then◌else◌,
}

abbrev pub buffer_size : ℕ
buffer_size = 10

abbrev pub max_str_len : ℕ
max_str_len = 256

-- `sizeof(struct Message)` with 8 bytes for a pointer.
abbrev pub message_bytes : ℕ
message_bytes = 16

-- `sizeof(struct MessageQueue)` with 32 bytes for a semaphore.
abbrev pub queue_bytes : ℕ
queue_bytes = 128

-- The length that `main` asks for: the queue, one message, and the data of all slots.
abbrev pub requested : ℕ
requested = queue_bytes + (message_bytes + max_str_len * buffer_size)

-- What `mmap` gives for it, in whole pages.
abbrev pub mapped : ℕ → ℕ
mapped page = (requested + page - 1) / page * page

-- The bytes of data that are copied for a size, an `unsigned char`.
unfoldable pub data_bytes : ℕ → ℕ
data_bytes size = let n = size % 256 in if n == 0 then 256 else (n + 3) / 4 * 4

-- `struct MessageQueue`, with the copies into the buffer, and the producers that have passed
-- `sem_wait(&queue->empty)` and the test of the flag.
pub record Shared : Type 0 where
  pub head : ℕ
  pub tail : ℕ
  pub count_add : ℕ
  pub count_get : ℕ
  pub empty : ℕ
  pub full : ℕ
  pub copies : List (ℕ × ℕ)
  pub reserved : ℕ

unfoldable pub init_queue : Shared
init_queue = record {
  head = 0;
  tail = 0;
  count_add = 0;
  count_get = 0;
  empty = buffer_size;
  full = 0;
  copies = [];
  reserved = 0;
}

-- `workProducer` under the mutex, for a message of that size.
unfoldable pub add_message : ℕ → Shared → Shared
unfolding data_bytes
add_message size s =
    let tail = s.tail + message_bytes + max_str_len in
    record s {
      count_add = s.count_add + 1;
      copies =
          s.copies ++ ((s.tail, message_bytes) ∷ (s.tail + message_bytes, data_bytes size) ∷ []);
      tail = if tail / (max_str_len + message_bytes) == 10 then 0 else tail;
      full = s.full + 1;
    }

-- A producer passes the semaphore; with the flag set it exits and keeps the slot; a signal wakes it
-- and it exits; a producer adds a message of a size. A consumer passes the semaphore, and exits or
-- goes on waiting.
pub data Event : Type 0 where
  reserve : Event
  leave : Event
  woken : Event
  add : ℕ → Event
  consume : Event

-- `sem_wait`: a unit less, if there is one.
unfoldable pub sem_wait : ℕ → Option ℕ
sem_wait zero = none
sem_wait (suc n) = some n

abbrev with_empty : Shared → ℕ → Option ℕ → Option Shared
with_empty s more none = none
with_empty s more (some n) = some (record s { empty = n; reserved = s.reserved + more })

abbrev with_full : Shared → Option ℕ → Option Shared
with_full s none = none
with_full s (some n) = some (record s { full = n })

abbrev with_reserved : Shared → ℕ → Option ℕ → Option Shared
with_reserved s size none = none
with_reserved s size (some n) = some (add_message size (record s { reserved = n }))

-- `none`: the process cannot go on. No signal ends a wait for the mutex here.
unfoldable pub step : Shared → Event → Option Shared
unfolding sem_wait add_message
step s reserve = with_empty s 1 (sem_wait s.empty)
step s leave = with_empty s 0 (sem_wait s.empty)
step s woken = some s
step s (add size) = with_reserved s size (sem_wait s.reserved)
step s consume = with_full s (sem_wait s.full)

abbrev pub next : Option Shared → Event → Option Shared
next none e = none
next (some s) e = step s e

unfoldable pub run : Option Shared → List Event → Option Shared
unfolding step
run s [] = s
run s (e ∷ es) = run (next s e) es
