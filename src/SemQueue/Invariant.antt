-- ===== src/SemQueue/Invariant.antt =====
-- What holds of the queue of Lab5/lab5_1.c between two events. Its buffer is used like that of
-- Lab5/lab5_2.c, with a count of messages that no variable of the program holds.
use osisp_labs.Common.{
  ℕ, ◌+◌, ◌-◌, ◌≤◌, ◌<◌, ◌≡◌, refl, ap, ◌∙◌, sym, subst, realloc, List, [], ◌∷◌, ◌++◌, arith,
  Bool-cases, inl, inr, true, false, ltb, ◌==◌,
}
use osisp_labs.Message.{Message}
use osisp_labs.CondQueue
use osisp_labs.CondQueue.Invariant.{contents, init_queue-IsValid}
use osisp_labs.CondQueue.Steps.{added-IsValid, contents-added, removed-IsValid, contents-removed}
use osisp_labs.CondQueue.Resize.{increm_size_refines, contents-discr_size, discr_size-IsValid}
use osisp_labs.SemQueue.{
  MessageQueue, init_queue, add_message, get_message, increm_size, pack, discr_size, System,
}

-- The queue as one that counts its messages.
abbrev pub counting : MessageQueue → ℕ → CondQueue.MessageQueue
counting q n = record {
  buffer = q.buffer;
  head = q.head;
  tail = q.tail;
  count_add = q.count_add;
  count_get = q.count_get;
  count_msg = n;
  size_queue = q.size_queue;
}

-- The messages in the buffer: those that are free to take, and one for each thread that is about
-- to take one.
abbrev pub messages : System → ℕ
messages s = s.queue.full + s.claimed

abbrev pub counted : System → CondQueue.MessageQueue
counted s = counting s.queue (messages s)

-- Every slot is filled, free, or promised to a thread.
pub record IsValid (s : System) : Type 0 where
  pub ring : CondQueue.Invariant.IsValid (counted s)
  pub slots : s.queue.empty + s.reserved + messages s ≡ s.queue.size_queue

abbrev pub waiting : System → List Message
waiting s = contents (counted s)

abbrev pub initial : Message → System
initial junk = record { queue = init_queue junk; reserved = 0; claimed = 0; stuck = false }

pub initial-IsValid : (junk : Message) → IsValid (initial junk)
unfolding init_queue CondQueue.init_queue
initial-IsValid junk = record { ring = init_queue-IsValid junk; slots = refl }

-- A message that is added to a valid buffer with room.
pub add_message_lem :
    (q : MessageQueue) (n : ℕ) (msg : Message)
    → CondQueue.Invariant.IsValid (counting q n)
    → n < q.size_queue
    → CondQueue.Invariant.IsValid (counting (add_message msg q) (n + 1))
      × (contents (counting (add_message msg q) (n + 1)) ≡ contents (counting q n) ++ (msg ∷ []))
unfolding add_message
add_message_lem q n msg v room = (added-IsValid v msg room, contents-added v msg room)

pub get_message_lem :
    (q : MessageQueue) (n : ℕ)
    → CondQueue.Invariant.IsValid (counting q n)
    → 0 < n
    → CondQueue.Invariant.IsValid (counting (get_message q).1 (n - 1))
      × (contents (counting q n)
          ≡ (get_message q).0 ∷ contents (counting (get_message q).1 (n - 1)))
unfolding get_message
get_message_lem q n v some_left = (removed-IsValid v some_left, contents-removed v some_left)

-- Growing while the messages lie in one piece.
increm_size_same :
    (q : MessageQueue) (n : ℕ) (junk : Message)
    → q.head ≤ q.tail
    → (CondQueue.increm_size junk (counting q n) ≡ counting (increm_size junk q) n)
      × ((increm_size junk q).empty ≡ q.empty + 1)
      × ((increm_size junk q).full ≡ q.full)
unfolding increm_size CondQueue.increm_size
increm_size_same q n junk flat =
    let t : ltb q.tail q.head ≡ false = ground arith in rw (t) (refl, refl, refl)

pub increm_size_lem :
    (q : MessageQueue) (n : ℕ) (junk : Message)
    → CondQueue.Invariant.IsValid (counting q n)
    → q.head ≤ q.tail
    → n < q.size_queue
    → CondQueue.Invariant.IsValid (counting (increm_size junk q) n)
      × (contents (counting (increm_size junk q) n) ≡ contents (counting q n))
      × ((increm_size junk q).size_queue ≡ q.size_queue + 1)
      × ((increm_size junk q).empty ≡ q.empty + 1)
      × ((increm_size junk q).full ≡ q.full)
increm_size_lem q n junk v flat room =
    let (v', c, s) = increm_size_refines v junk room in
    let (same, e, f) = increm_size_same q n junk flat in
    (
      subst CondQueue.Invariant.IsValid same v',
      ap contents (sym same) ∙ c,
      ap (λ p. p.size_queue) (sym same) ∙ s,
      e,
      f,
    )

pack_lem :
    (q : MessageQueue) (n : ℕ)
    → (CondQueue.pack (counting q n) ≡ counting (pack q) n) × ((pack q).full ≡ q.full)
unfolding pack CondQueue.pack
pack_lem q n = elim (Bool-cases (ltb q.head q.tail)) [
  | inl below ↦ rw (below) (refl, refl)
  | inr above ↦ elim (Bool-cases (q.head == q.tail)) [
    | inl level ↦ rw (above, level) (refl, refl)
    | inr other ↦ rw (above, other) (refl, refl)
  ]
]

discr_size_same :
    (q : MessageQueue) (n : ℕ) (junk : Message)
    → n < q.size_queue
    → q.full ≤ n
    → 0 < q.empty
    → (CondQueue.discr_size junk (counting q n) ≡ counting (discr_size junk q).1 n)
      × ((discr_size junk q).1.empty ≡ q.empty - 1)
      × ((discr_size junk q).1.full ≡ q.full)
      × ((discr_size junk q).0 ≡ false)
unfolding discr_size CondQueue.discr_size
discr_size_same q n junk room below free =
    let t : ltb n q.size_queue ≡ true = ground arith in
    let u : ltb q.full q.size_queue ≡ true = ground arith in
    let (same, f) = pack_lem q n in
    let cut : CondQueue.MessageQueue → CondQueue.MessageQueue = λ p. record p {
      size_queue = q.size_queue - 1;
      buffer = realloc junk (q.size_queue - 1) p.buffer;
    } in
    rw (t, u) (ap cut same, refl, f, ground arith)

-- Shrinking with two slots or more not filled.
pub discr_size_lem :
    (q : MessageQueue) (n : ℕ) (junk : Message)
    → CondQueue.Invariant.IsValid (counting q n)
    → q.full ≤ n
    → n + 1 < q.size_queue
    → 0 < q.empty
    → CondQueue.Invariant.IsValid (counting (discr_size junk q).1 n)
      × (contents (counting (discr_size junk q).1 n) ≡ contents (counting q n))
      × ((discr_size junk q).1.size_queue ≡ q.size_queue - 1)
      × ((discr_size junk q).1.empty ≡ q.empty - 1)
      × ((discr_size junk q).1.full ≡ q.full)
      × ((discr_size junk q).0 ≡ false)
discr_size_lem q n junk v below room free =
    let (same, e, f, waits) = discr_size_same q n junk (omega arith) below free in
    let (c, s, _, _) = contents-discr_size v junk (omega arith) (omega arith) in
    (
      subst CondQueue.Invariant.IsValid same
          (discr_size-IsValid v junk (omega arith) (omega arith) (inl room)),
      ap contents (sym same) ∙ c,
      ap (λ p. p.size_queue) (sym same) ∙ s,
      e,
      f,
      waits,
    )
