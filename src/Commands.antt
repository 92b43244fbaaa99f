-- ===== src/Commands.antt =====
-- The command loop of Lab5/lab5_2.c (Lab5/lab5_1.c has it word for word), which starts and cancels
-- producer and consumer threads and resizes the queue. `prodCount` and `consCount` are -1 without
-- threads; here they are one more. `pthread_create` is the system's: the number of the new thread,
-- or `none` for an error, is an argument.
pub mod Stacks
pub mod Pools
mod Tests
use osisp_labs.Common.{
  ℕ, zero, suc, ◌+◌, ◌-◌, Bool, true, false, Option, none, some, List, [], ◌∷◌, ◌==◌, if◌then◌else◌,
  get_or, set,
}

pub data Effect : Type 0 where
  started : ℕ → Effect
  failed : Effect
  cancelled : ℕ → Effect  -- `pthread_cancel` and `pthread_join`
  nobody : Effect
  increm_size discr_size : Effect
  info : ℕ → ℕ → Effect

pub record Threads : Type 0 where
  pub producers : ℕ
  pub consumers : ℕ
  pub prod_id_mas : List ℕ
  pub cons_id_mas : List ℕ

-- `MAX_CHILD`
abbrev pub max_child : ℕ
max_child = 20

-- `createProducer` and `createConsumer`, which differ in the table and in the thread's function
unfoldable pub create_thread : Option ℕ → List ℕ → ℕ → Effect × List ℕ
create_thread none ids count = (failed, ids)
create_thread (some id) ids count = (started id, set ids count id)

-- `destroyThread`, for the number of threads, the index plus one
unfoldable pub destroy_thread : List ℕ → ℕ → Bool × Effect
destroy_thread ids zero = (false, nobody)
destroy_thread ids (suc last) = (true, cancelled (get_or ids last 0))

pub record Input : Type 0 where
  pub symbol : ℕ
  pub second : ℕ
  pub created : Option ℕ

-- The case 'p'.
unfoldable pub producer_command : Threads → Input → List Effect × Threads
unfolding create_thread destroy_thread
producer_command s i =
    if i.second == b'+'
    then (
      (create_thread i.created s.prod_id_mas s.producers).0 ∷ [],
      record s {
        producers = s.producers + 1;
        prod_id_mas = (create_thread i.created s.prod_id_mas s.producers).1;
      },
    )
    else if i.second == b'-'
    then (
      (destroy_thread s.prod_id_mas s.producers).1 ∷ [],
      record s {
        producers =
            if (destroy_thread s.prod_id_mas s.producers).0 then s.producers - 1 else s.producers;
      },
    )
    else ([], s)

-- The case 'c'.
unfoldable pub consumer_command : Threads → Input → List Effect × Threads
unfolding create_thread destroy_thread
consumer_command s i =
    if i.second == b'+'
    then (
      (create_thread i.created s.cons_id_mas s.consumers).0 ∷ [],
      record s {
        consumers = s.consumers + 1;
        cons_id_mas = (create_thread i.created s.cons_id_mas s.consumers).1;
      },
    )
    else if i.second == b'-'
    then (
      (destroy_thread s.cons_id_mas s.consumers).1 ∷ [],
      record s {
        consumers =
            if (destroy_thread s.cons_id_mas s.consumers).0 then s.consumers - 1 else s.consumers;
      },
    )
    else ([], s)

-- The case 's'.
unfoldable pub size_command : Input → List Effect
size_command i =
    if i.second == b'+' then increm_size ∷ [] else if i.second == b'-' then discr_size ∷ [] else []

-- One round of the loop of `main`: the effects, the new tables, and whether the loop goes on.
unfoldable pub step : Threads → Input → List Effect × Threads × Bool
unfolding producer_command consumer_command size_command
step s i =
    if i.symbol == b'p'
    then ((producer_command s i).0, (producer_command s i).1, true)
    else if i.symbol == b'c'
    then ((consumer_command s i).0, (consumer_command s i).1, true)
    else if i.symbol == b's'
    then (size_command i, s, true)
    else if i.symbol == b'i'
    then (info s.producers s.consumers ∷ [], s, true)
    else if i.symbol == b'q'
    then ([], s, false)
    else ([], s, true)
