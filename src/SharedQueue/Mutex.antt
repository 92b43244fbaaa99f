-- ===== src/SharedQueue/Mutex.antt =====
-- The section of `workProducer` in Lab4/lab4Main.c store by store, in several processes: they enter
-- it through the semaphore `mutex`, or because a signal ends their `sem_wait`, the result of which
-- is not looked at. A process comes here behind its `sem_wait(&queue->empty)`.
pub mod Sections
pub mod Owner
pub mod Exclusive
pub mod Broken
mod Tests
use osisp_labs.Common.{
  ℕ, zero, suc, ◌+◌, ◌/◌, Bool, true, false, Option, none, some, List, [], ◌∷◌, ◌++◌, ◌==◌,
  if◌then◌else◌, ◌>>=◌,
}
use osisp_labs.SharedQueue.{Shared, message_bytes, max_str_len, data_bytes}

-- Where a process stands, with the size of its message as long as that matters: before
-- `sem_wait(&queue->mutex)`, or before a store of the section or a `sem_post` behind it.
pub data Pc : Type 0 where
  outside : Pc
  waiting counting copying passing storing : ℕ → Pc
  jumping wrapping posting_full posting_mutex : Pc

pub record System : Type 0 where
  pub shared : Shared
  pub mutex : ℕ
  pub pc : ℕ → Pc

abbrev pub update : (ℕ → Pc) → ℕ → Pc → ℕ → Pc
update pc i p = λ j. if i == j then p else pc j

-- The stores of the section, up to `sem_post(&queue->mutex)`.
unfoldable pub work : Pc → Shared → Option (Pc × Shared)
unfolding data_bytes
work outside s = none
work (waiting size) s = none
work (counting size) s = some (copying size, record s { count_add = s.count_add + 1 })
work (copying size) s =
    some (passing size, record s { copies = s.copies ++ ((s.tail, message_bytes) ∷ []) })
work (passing size) s = some (storing size, record s { tail = s.tail + message_bytes })
work (storing size) s =
    some (jumping, record s { copies = s.copies ++ ((s.tail, data_bytes size) ∷ []) })
work jumping s = some (wrapping, record s { tail = s.tail + max_str_len })
work wrapping s = some (
  posting_full,
  record s { tail = if s.tail / (max_str_len + message_bytes) == 10 then 0 else s.tail },
)
work posting_full s = some (posting_mutex, record s { full = s.full + 1 })
work posting_mutex s = none

-- A process comes to the mutex with a message of a size; it enters the section by a unit of the
-- semaphore, or by a signal; it does the next store; it leaves the section.
pub data Event : Type 0 where
  arrives : ℕ → ℕ → Event
  enters : ℕ → Event
  interrupted : ℕ → Event
  works : ℕ → Event
  leaves : ℕ → Event

abbrev pub arrived : Pc → ℕ → ℕ → System → Option System
arrived outside i size s = some (record s { pc = update s.pc i (waiting size) })
arrived _ i size s = none

abbrev pub entered : Pc → ℕ → ℕ → System → Option System
entered (waiting size) (suc n) i s =
    some (record s { mutex = n; pc = update s.pc i (counting size) })
entered _ _ i s = none

abbrev pub broken_in : Pc → ℕ → System → Option System
broken_in (waiting size) i s = some (record s { pc = update s.pc i (counting size) })
broken_in _ i s = none

abbrev pub left : Pc → ℕ → System → Option System
left posting_mutex i s = some (record s { mutex = s.mutex + 1; pc = update s.pc i outside })
left _ i s = none

-- `none`: the process is not there.
unfoldable pub step : System → Event → Option System
unfolding work
step s (arrives i size) = arrived (s.pc i) i size s
step s (enters i) = entered (s.pc i) s.mutex i s
step s (interrupted i) = broken_in (s.pc i) i s
step s (works i) = work (s.pc i) s.shared >>= λ (p, shared).
    some (record s { shared = shared; pc = update s.pc i p })
step s (leaves i) = left (s.pc i) i s

unfoldable pub run : List Event → System → Option System
unfolding step
run [] s = some s
run (e ∷ es) s = step s e >>= run es

-- `init_queue` with all processes outside.
abbrev pub start : Shared → System
start shared = record { shared = shared; mutex = 1; pc = λ _. outside }
