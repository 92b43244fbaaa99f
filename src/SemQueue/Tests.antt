-- ===== src/SemQueue/Tests.antt =====
-- The queue of Lab5/lab5_1.c in concrete runs, and the theorems at them.
use osisp_labs.Common.{◌≡◌, refl, [], ◌∷◌, arith, true, false, replicate, realloc}
use osisp_labs.Message.{Message}
use osisp_labs.Ring.{zero_message, rewind, move_down}
use osisp_labs.SemQueue.{get_message, increm_size, discr_size, System, claim, step}
use osisp_labs.SemQueue.Invariant.{IsValid, initial}
use osisp_labs.SemQueue.Resize.{increm_size_wrapped, shrink_deadlock, run, OnlyClaims, IsStuck}

abbrev one : Message
one = record { type = b'S'; hash = 123; size = 1; bytes = 40 ∷ [] }

abbrev two : Message
two = record one { hash = 124 }

abbrev empty_queue : System
empty_queue = initial zero_message

-- Two messages go in and the first comes out.
abbrev at_end : System
at_end = record {
  queue = record {
    buffer = zero_message ∷ two ∷ replicate 8 zero_message;
    head = 1;
    tail = 2;
    count_add = 2;
    count_get = 1;
    empty = 9;
    full = 1;
    size_queue = 10;
  };
  reserved = 0;
  claimed = 0;
  stuck = false;
}

-- Two slots: one message there, the other slot with a producer that waits for the mutex.
abbrev held : System
held = record {
  queue = record {
    buffer = one ∷ zero_message ∷ [];
    head = 0;
    tail = 1;
    count_add = 1;
    count_get = 0;
    empty = 0;
    full = 1;
    size_queue = 2;
  };
  reserved = 1;
  claimed = 0;
  stuck = false;
}

held-IsValid : IsValid held
held-IsValid = ground arith

abbrev stuck_end : System
stuck_end = record held {
  queue = record held.queue { buffer = one ∷ []; size_queue = 1; full = 0 };
  claimed = 1;
  stuck = true;
}

shrink_deadlock_example : OnlyClaims (claim ∷ []) × IsStuck stuck_end
unfolding run step discr_size realloc rewind move_down
shrink_deadlock_example =
    shrink_deadlock held stuck_end zero_message (claim ∷ []) held-IsValid refl refl (omega arith)
      refl

-- A message in the last slot and one in the first: growing puts the empty slot between before them.
abbrev round : System
round = record {
  queue = record {
    buffer = two ∷ zero_message ∷ one ∷ [];
    head = 2;
    tail = 1;
    count_add = 4;
    count_get = 2;
    empty = 1;
    full = 2;
    size_queue = 3;
  };
  reserved = 0;
  claimed = 0;
  stuck = false;
}

round-IsValid : IsValid round
round-IsValid = ground arith

increm_size_wrapped_example : (get_message (increm_size zero_message round.queue)).0 ≡ zero_message
increm_size_wrapped_example = increm_size_wrapped round-IsValid zero_message (omega arith)
