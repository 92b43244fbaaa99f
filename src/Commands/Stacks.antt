-- ===== src/Commands/Stacks.antt =====
-- What the command loop of Lab5/lab5_2.c does, on two stacks of threads in place of its tables.
use osisp_labs.Common.{
  ℕ, zero, suc, Bool, true, false, Option, none, some, List, [], ◌∷◌, ◌==◌, if◌then◌else◌, get_or,
  length,
}
use osisp_labs.Commands.{
  Effect, started, failed, cancelled, nobody, info, Threads, Input, size_command,
}

-- The threads that a table shows, the newest first.
abbrev pub pool : List ℕ → ℕ → List ℕ
pool ids zero = []
pool ids (suc n) = get_or ids n 0 ∷ pool ids n

-- Two stacks of threads.
pub record Stacks : Type 0 where
  pub producing : List ℕ
  pub consuming : List ℕ

abbrev pub view : Threads → Stacks
view s = record {
  producing = pool s.prod_id_mas s.producers;
  consuming = pool s.cons_id_mas s.consumers;
}

abbrev pub cancel_top : List ℕ → Effect
cancel_top [] = nobody
cancel_top (id ∷ ids) = cancelled id

abbrev pub pop : List ℕ → List ℕ
pop [] = []
pop (id ∷ ids) = ids

abbrev pub push : Option ℕ → List ℕ → List ℕ
push none ids = ids
push (some id) ids = id ∷ ids

abbrev pub announce : Option ℕ → Effect
announce none = failed
announce (some id) = started id

-- A command on one stack.
unfoldable pub stack_command : List ℕ → Input → List Effect × List ℕ
stack_command ids i =
    if i.second == b'+'
    then (announce i.created ∷ [], push i.created ids)
    else if i.second == b'-'
    then (cancel_top ids ∷ [], pop ids)
    else ([], ids)

unfoldable pub stack_step : Stacks → Input → List Effect × Stacks × Bool
unfolding stack_command
stack_step s i =
    if i.symbol == b'p'
    then (
      (stack_command s.producing i).0,
      record s { producing = (stack_command s.producing i).1 },
      true,
    )
    else if i.symbol == b'c'
    then (
      (stack_command s.consuming i).0,
      record s { consuming = (stack_command s.consuming i).1 },
      true,
    )
    else if i.symbol == b's'
    then (size_command i, s, true)
    else if i.symbol == b'i'
    then (info (length s.producing) (length s.consuming) ∷ [], s, true)
    else if i.symbol == b'q'
    then ([], s, false)
    else ([], s, true)
