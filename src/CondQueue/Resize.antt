-- ===== src/CondQueue/Resize.antt =====
-- The resizing of Lab5/lab5_2.c: where it keeps the messages, and where it does not.
use osisp_labs.Common.{
  ℕ, ◌+◌, ◌-◌, ◌≤◌, ◌<◌, ◌≡◌, ◌⊎◌, inl, inr, refl, ap, ◌∙◌, List, get_or, set, length, true,
  Bool-cases, realloc, length-realloc, get_or-realloc, get_or-set_self, some, arith, ltb, ◌==◌,
}
use native.Mathlib.Decide.{dec_lt}
use osisp_labs.Message.{Message}
use osisp_labs.Ring.{zero_message, slot, advance, window, shift_up, move_down, shift_down}
use osisp_labs.Ring.Window.{window-ext, window-empty}
use osisp_labs.Ring.Loops.{
  shift_up_kept, shift_up_moved, length-shift_up, move_down_moved, length-move_down,
  shift_down_moved, shift_down_kept, length-shift_down, rewind_lem,
}
use osisp_labs.CondQueue.{MessageQueue, work_producer, increm_size, pack, discr_size}
use osisp_labs.CondQueue.Invariant.{IsValid, contents}

module _ {q : MessageQueue} (v : IsValid q) (junk : Message) where
  abbrev grown : List Message
  grown = realloc junk (q.size_queue + 1) q.buffer

  length-grown : length grown ≡ q.size_queue + 1
  length-grown = length-realloc junk (q.size_queue + 1) q.buffer

  grown_kept :
      (i : ℕ) → i < q.size_queue → get_or grown i zero_message ≡ get_or q.buffer i zero_message
  grown_kept i p =
      get_or-realloc junk (q.size_queue + 1) q.buffer i zero_message (omega arith) (omega arith)

  abbrev shifted : List Message
  shifted = shift_up (q.size_queue + 1 - 1) q.head grown

  -- A wrapped queue with room: the part up to the old end moves one slot up.
  shifted_kept :
      q.tail < q.head
      → (k : ℕ) → k < q.count_msg
      → get_or shifted (slot (q.size_queue + 1) (q.head + 1) k) zero_message
        ≡ get_or q.buffer (slot q.size_queue q.head k) zero_message
  shifted_kept wrapped k p = elim (dec_lt (q.head + k) q.size_queue) [
    | yes up ↦
        shift_up_moved (q.size_queue + 1 - 1) q.head grown (slot (q.size_queue + 1) (q.head + 1) k)
          (omega (arith, length-grown)) (ground arith) (ground arith)
        ∙ ap (λ i. get_or grown i zero_message) (ground arith)
        ∙ grown_kept (slot q.size_queue q.head k) (ground arith)
    | no low ↦
        shift_up_kept (q.size_queue + 1 - 1) q.head grown (slot (q.size_queue + 1) (q.head + 1) k)
          (omega (arith, length-grown)) (ground arith)
        ∙ ap (λ i. get_or grown i zero_message) (ground arith)
        ∙ grown_kept (slot q.size_queue q.head k) (ground arith)
  ]

  -- A queue that does not wrap stays where it is.
  plain_kept :
      q.count_msg < q.size_queue
      → q.head ≤ q.tail
      → (k : ℕ) → k < q.count_msg
      → get_or grown (slot (q.size_queue + 1) q.head k) zero_message
        ≡ get_or q.buffer (slot q.size_queue q.head k) zero_message
  plain_kept room plain k p =
      ap (λ i. get_or grown i zero_message) (ground arith)
      ∙ grown_kept (slot q.size_queue q.head k) (ground arith)

  -- While a valid queue is not full, growing keeps it valid, its messages in order, and adds one
  -- slot.
  pub increm_size_refines :
      q.count_msg < q.size_queue
      → IsValid (increm_size junk q)
        × (contents (increm_size junk q) ≡ contents q)
        × ((increm_size junk q).size_queue ≡ q.size_queue + 1)
  unfolding increm_size
  increm_size_refines room = elim (Bool-cases (ltb q.tail q.head)) [
    | inl wrapped ↦ rw wrapped (
      ground (arith, length-shift_up (q.size_queue + 1 - 1) q.head grown, length-grown),
      window-ext shifted q.buffer (q.size_queue + 1) q.size_queue (q.head + 1) q.head q.count_msg
          (ground arith) v.head_in (omega arith) v.count_in (shifted_kept (ground arith)),
      refl,
    )
    | inr plain ↦ rw plain (
      ground (arith, length-grown),
      window-ext grown q.buffer (q.size_queue + 1) q.size_queue q.head q.head q.count_msg
          (omega arith) v.head_in (omega arith) v.count_in (plain_kept room (ground arith)),
      refl,
    )
  ]

module _ {q : MessageQueue} (v : IsValid q) (junk : Message)
    (room : q.count_msg < q.size_queue) where
  abbrev front : List Message
  front = realloc junk (q.size_queue - 1) (move_down (q.tail - q.head) 0 q.head q.buffer)

  abbrev back : List Message
  back = realloc junk (q.size_queue - 1) (shift_down (q.size_queue - q.head) 0 q.head q.buffer)

  -- The case `head < tail`: the messages move to the front.
  front_kept :
      q.head < q.tail
      → (k : ℕ) → k < q.count_msg
      → get_or front (slot (q.size_queue - 1) 0 k) zero_message
        ≡ get_or q.buffer (slot q.size_queue q.head k) zero_message
  front_kept below k p =
      ap (λ i. get_or front i zero_message) in_front
      ∙ get_or-realloc junk (q.size_queue - 1) moved k zero_message (ground arith)
          (ground (arith, length-move_down (q.tail - q.head) 0 q.head q.buffer))
      ∙ move_down_moved (q.tail - q.head) 0 q.head q.buffer k (ground arith) (omega arith)
          (ground arith)
      ∙ ap (λ i. get_or q.buffer i zero_message) (ground arith)
    where
      moved : List Message
      moved = move_down (q.tail - q.head) 0 q.head q.buffer

      in_front : slot (q.size_queue - 1) 0 k ≡ k
      in_front = ground arith

  -- The case `tail < head`: the part from `head` on moves one slot down.
  back_kept :
      q.tail < q.head
      → (k : ℕ) → k < q.count_msg
      → get_or back (slot (q.size_queue - 1) (q.head - 1) k) zero_message
        ≡ get_or q.buffer (slot q.size_queue q.head k) zero_message
  back_kept wrapped k p =
      get_or-realloc junk (q.size_queue - 1) moved (slot (q.size_queue - 1) (q.head - 1) k)
        zero_message (ground arith)
        (ground (arith, length-shift_down (q.size_queue - q.head) 0 q.head q.buffer))
      ∙ elim (dec_lt (q.head + k) q.size_queue) [
        | yes up ↦
            shift_down_moved (q.size_queue - q.head) 0 q.head q.buffer
              (slot (q.size_queue - 1) (q.head - 1) k) (ground arith) (ground arith) (ground arith)
              (ground arith)
            ∙ ap (λ i. get_or q.buffer i zero_message) (ground arith)
        | no low ↦
            shift_down_kept (q.size_queue - q.head) 0 q.head q.buffer
              (slot (q.size_queue - 1) (q.head - 1) k) (ground arith) (ground arith)
            ∙ ap (λ i. get_or q.buffer i zero_message) (ground arith)
      ]
    where
      moved : List Message
      moved = shift_down (q.size_queue - q.head) 0 q.head q.buffer

  module _ (many : 1 < q.size_queue) where
    -- Shrinking a valid queue of two slots or more that is not full keeps its messages in order
    -- and takes one slot away.
    pub contents-discr_size :
        (contents (discr_size junk q) ≡ contents q)
        × ((discr_size junk q).size_queue ≡ q.size_queue - 1)
        × (length (discr_size junk q).buffer ≡ q.size_queue - 1)
        × ((discr_size junk q).count_msg ≡ q.count_msg)
    unfolding discr_size
    contents-discr_size = rw lower (elim (Bool-cases (ltb q.head q.tail)) [
      | inl below ↦ rw below (
        ap (λ h. window front (q.size_queue - 1) h q.count_msg)
              (rewind_lem q.head q.tail (ground arith)).0
            ∙ window-ext front q.buffer (q.size_queue - 1) q.size_queue 0 q.head q.count_msg
                (omega arith) v.head_in (omega arith) v.count_in (front_kept (ground arith)),
        refl,
        length-realloc junk (q.size_queue - 1) _,
        refl,
      )
      | inr not_below ↦ rw not_below (elim (Bool-cases (q.head == q.tail)) [
        | inl same ↦ rw same (
          window-empty _ q.buffer (q.size_queue - 1) q.size_queue 0 q.head q.count_msg
              (ground arith),
          refl,
          length-realloc junk (q.size_queue - 1) _,
          refl,
        )
        | inr wrapped ↦ rw wrapped (
          window-ext back q.buffer (q.size_queue - 1) q.size_queue (q.head - 1) q.head q.count_msg
              (ground arith) v.head_in (omega arith) v.count_in (back_kept (ground arith)),
          refl,
          length-realloc junk (q.size_queue - 1) _,
          refl,
        )
      ])
    ])
      where
        lower : ltb q.count_msg q.size_queue ≡ true
        lower = ground arith

    -- Shrinking a valid queue of two slots or more that is not full leaves it valid, if two slots
    -- are free or the write index is not above the read index.
    pub discr_size-IsValid :
        (q.count_msg + 1 < q.size_queue) ⊎ (q.tail ≤ q.head) → IsValid (discr_size junk q)
    unfolding discr_size
    discr_size-IsValid roomy = ground (
      arith,
      contents-discr_size,
      rewind_lem q.head q.tail,
      length-realloc junk (q.size_queue - 1) (pack q).buffer,
    )

    -- After shrinking a valid queue of two slots or more that has one free slot and its write
    -- index above its read index, the write index is one past the buffer that `realloc` has cut.
    pub discr_size_overrun :
        q.count_msg + 1 ≡ q.size_queue
        → q.head < q.tail
        → (discr_size junk q).tail ≡ length (discr_size junk q).buffer
    unfolding discr_size
    discr_size_overrun last below =
        ground
          (arith, rewind_lem q.head q.tail, length-realloc junk (q.size_queue - 1) (pack q).buffer)

-- Growing a full valid queue leaves the write index on the oldest message: the next producer has
-- room, writes over it, and its message is the next to be read.
pub increm_size_full :
    {q : MessageQueue} (v : IsValid q) (junk msg : Message)
    → q.count_msg ≡ q.size_queue
    → (q' : MessageQueue) × (work_producer msg (increm_size junk q) ≡ some q')
      × (get_or q'.buffer q'.head zero_message ≡ msg)
      × (q'.count_msg ≡ q.size_queue + 1)
unfolding increm_size work_producer
increm_size_full {q} v junk msg full = (
  record q {
    size_queue = q.size_queue + 1;
    count_add = q.count_add + 1;
    buffer = set (realloc junk (q.size_queue + 1) q.buffer) q.tail msg;
    tail = advance (q.size_queue + 1) q.tail;
    count_msg = q.count_msg + 1;
  },
  ground arith,
  ap (λ i. get_or (set (realloc junk (q.size_queue + 1) q.buffer) q.tail msg) i zero_message)
        (ground arith)
      ∙ get_or-set_self (realloc junk (q.size_queue + 1) q.buffer) q.tail msg zero_message
          (ground (arith, length-realloc junk (q.size_queue + 1) q.buffer)),
  omega arith,
)
