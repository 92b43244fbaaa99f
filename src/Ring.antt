-- ===== src/Ring.antt =====
-- The array loops that Lab5/lab5_1.c and Lab5/lab5_2.c share, and the view of a circular buffer as
-- the list of the messages in it. Both files have these loops word for word; the lines named for
-- them are those of lab5_2.c.
pub mod Window
pub mod Loops
use osisp_labs.Common.{ℕ, zero, suc, ◌+◌, ◌-◌, List, [], ◌∷◌, ltb, ◌==◌, if◌then◌else◌, get_or, set}
use osisp_labs.Message.{Message}

-- What `memset(p, 0, sizeof(struct Message))` leaves.
abbrev pub zero_message : Message
zero_message = record { type = 0; hash = 0; size = 0; bytes = [] }

-- `++i; if (i == sizeQueue) i = 0;`
abbrev pub advance : ℕ → ℕ → ℕ
advance size i = if i + 1 == size then 0 else i + 1

-- `for (int i = …; i > low; i--) buffer[i] = buffer[i - 1];` from the given `i` on
unfoldable pub shift_up : ℕ → ℕ → List Message → List Message
shift_up zero low buffer = buffer
shift_up (suc i) low buffer =
    let rest = shift_up i low (set buffer (suc i) (get_or buffer i zero_message)) in
    if ltb low (suc i) then rest else buffer

-- `for (int i = …; tail - head - i > 0; i++) buffer[i] = buffer[head + i];` with `rounds` left
unfoldable pub move_down : ℕ → ℕ → ℕ → List Message → List Message
move_down zero i head buffer = buffer
move_down (suc rounds) i head buffer =
    move_down rounds (i + 1) head (set buffer i (get_or buffer (head + i) zero_message))

-- `while (head != 0) { --head; --tail; }`, as the pair of both
unfoldable pub rewind : ℕ → ℕ → ℕ × ℕ
rewind zero tail = (0, tail)
rewind (suc head) tail = rewind head (tail - 1)

-- `for (int i = …; head + i < sizeQueue; i++) buffer[head + i - 1] = buffer[head + i];`
unfoldable pub shift_down : ℕ → ℕ → ℕ → List Message → List Message
shift_down zero i head buffer = buffer
shift_down (suc rounds) i head buffer =
    shift_down rounds (i + 1) head
      (set buffer (head + i - 1) (get_or buffer (head + i) zero_message))

-- The slot of the `k`-th message from `head` on.
abbrev pub slot : ℕ → ℕ → ℕ → ℕ
slot size head k = if ltb (head + k) size then head + k else head + k - size

-- The `n` messages from `head` on, going round at `size`.
unfoldable pub window : List Message → ℕ → ℕ → ℕ → List Message
window buffer size head zero = []
window buffer size head (suc n) =
    get_or buffer head zero_message ∷ window buffer size (advance size head) n
