-- ===== src/CondQueue/Steps.antt =====
-- The critical sections of the producer and of the consumer of Lab5/lab5_2.c.
use osisp_labs.Common.{
  ℕ, suc, ◌+◌, ◌-◌, ◌<◌, ◌≡◌, refl, sym, ap, ap₂, ◌∙◌, [], ◌∷◌, ◌++◌, some, none, get_or, set,
  length-set, get_or-set_self, get_or-set_ne, arith,
}
use osisp_labs.Message.{Message}
use osisp_labs.Ring.{zero_message, slot, advance, window}
use osisp_labs.Ring.Window.{window-ext, window-suc}
use osisp_labs.CondQueue.{MessageQueue, work_producer, work_consumer}
use osisp_labs.CondQueue.Invariant.{IsValid, contents}

module _ {q : MessageQueue} (v : IsValid q) where
  -- A producer waits exactly on a full queue.
  pub work_producer_full : (msg : Message) → q.count_msg ≡ q.size_queue → work_producer msg q ≡ none
  unfolding work_producer
  work_producer_full msg full = ground arith

  module _ (msg : Message) (room : q.count_msg < q.size_queue) where
    abbrev pub added : MessageQueue
    added = record q {
      count_add = q.count_add + 1;
      buffer = set q.buffer q.tail msg;
      tail = advance q.size_queue q.tail;
      count_msg = q.count_msg + 1;
    }

    tail_fresh :
        (k : ℕ)
        → k < q.count_msg
        → get_or added.buffer (slot q.size_queue q.head k) zero_message
          ≡ get_or q.buffer (slot q.size_queue q.head k) zero_message
    tail_fresh k p =
        get_or-set_ne q.buffer q.tail (slot q.size_queue q.head k) msg zero_message (ground arith)

    pub contents-added : contents added ≡ contents q ++ (msg ∷ [])
    contents-added =
        ap (window added.buffer q.size_queue q.head) (omega arith)
        ∙ window-suc added.buffer q.size_queue q.head q.count_msg v.head_in room
        ∙ ap₂ ◌++◌
            (window-ext added.buffer q.buffer q.size_queue q.size_queue q.head q.head q.count_msg
              v.head_in v.head_in v.count_in v.count_in tail_fresh)
            (ap (λ m. m ∷ [])
              (ap (λ i. get_or added.buffer i zero_message) (omega arith)
                ∙ get_or-set_self q.buffer q.tail msg zero_message (ground arith)))

    pub added-IsValid : IsValid added
    added-IsValid = ground (arith, length-set q.buffer q.tail msg)

    -- With room left in a valid queue a producer appends its message, and keeps the queue valid
    -- and its size.
    pub work_producer_room :
        (q' : MessageQueue) × (work_producer msg q ≡ some q')
        × IsValid q'
        × (contents q' ≡ contents q ++ (msg ∷ []))
        × (q'.size_queue ≡ q.size_queue)
    unfolding work_producer
    work_producer_room = (added, ground arith, added-IsValid, contents-added, refl)

  -- A consumer waits exactly on an empty queue.
  pub work_consumer_empty : q.count_msg ≡ 0 → work_consumer q ≡ none
  unfolding work_consumer
  work_consumer_empty e = ground arith

  module _ (some_left : 0 < q.count_msg) where
    abbrev pub removed : MessageQueue
    removed = record q {
      count_get = q.count_get + 1;
      buffer = set q.buffer q.head zero_message;
      head = advance q.size_queue q.head;
      count_msg = q.count_msg - 1;
    }

    rest_kept :
        (k : ℕ)
        → k < q.count_msg - 1
        → get_or q.buffer (slot q.size_queue (advance q.size_queue q.head) k) zero_message
          ≡ get_or removed.buffer (slot q.size_queue (advance q.size_queue q.head) k) zero_message
    rest_kept k p = sym (
        get_or-set_ne q.buffer q.head (slot q.size_queue (advance q.size_queue q.head) k)
          zero_message zero_message (ground arith))

    pub contents-removed : contents q ≡ get_or q.buffer q.head zero_message ∷ contents removed
    unfolding window
    contents-removed =
        ap (window q.buffer q.size_queue q.head) count_suc
        ∙ ap (◌∷◌ (get_or q.buffer q.head zero_message)) (
            window-ext q.buffer removed.buffer q.size_queue q.size_queue
              (advance q.size_queue q.head) (advance q.size_queue q.head) (q.count_msg - 1)
              (ground arith) (ground arith) (omega arith) (omega arith) rest_kept)
      where
        count_suc : q.count_msg ≡ suc (q.count_msg - 1)
        count_suc = omega arith

    pub removed-IsValid : IsValid removed
    removed-IsValid = ground (arith, length-set q.buffer q.head zero_message)

    -- With a message in a valid queue a consumer takes the oldest, and keeps the queue valid and
    -- its size.
    pub work_consumer_nonempty :
        (m : Message) × (q' : MessageQueue) × (work_consumer q ≡ some (m, q'))
        × IsValid q'
        × (contents q ≡ m ∷ contents q')
        × (q'.size_queue ≡ q.size_queue)
    unfolding work_consumer
    work_consumer_nonempty = (
      get_or q.buffer q.head zero_message,
      removed,
      ground arith,
      removed-IsValid,
      contents-removed,
      refl,
    )
