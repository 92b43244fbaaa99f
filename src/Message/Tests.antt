-- ===== src/Message/Tests.antt =====
-- Messages of Lab5/functions.c for a `rand` that gives 100, 101, ... after a first number.
use osisp_labs.Common.{ℕ, ◌+◌, ◌%◌, ◌≡◌, ◌≢◌, refl, some, [], ◌∷◌, arith}
use osisp_labs.Message.{Message, generate_message, read_data, message_of}
use osisp_labs.Message.Generate.{IsMessage, generate_message-IsMessage}

abbrev rand : ℕ → ℕ
rand i = 100 + i

-- Blocks of at least 24 bytes.
abbrev usable : ℕ → ℕ
usable n = n + 16

abbrev four : Message
four = record { type = b'S'; hash = 258; size = 3; bytes = 40 ∷ 41 ∷ 42 ∷ 43 ∷ [] }

-- Three characters are asked for, four are made.
four_runs : message_of rand 3 ≡ record four { hash = b'S' + 3 + 166 }
unfolding message_of
four_runs = refl

read_runs : read_data four ≡ some (40 ∷ 41 ∷ 42 ∷ 43 ∷ [])
unfolding read_data
read_runs = refl

seven : (7 % 257) ≢ 0
seven e = absurd (omega (arith, e))

generate_message-IsMessage_example :
    (m : Message) × (generate_message usable 7 rand ≡ some m) × IsMessage m
generate_message-IsMessage_example = generate_message-IsMessage usable 7 rand (omega arith) seven
