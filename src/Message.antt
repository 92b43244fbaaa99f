-- ===== src/Message.antt =====
-- Lab5/functions.h and Lab5/functions.c: the messages, their generation and their printing. `rand`
-- is the C library's: the numbers that it gives are arguments, and so are the blocks of `malloc`.
pub mod Generate
mod Tests
use osisp_labs.Common.{
  ℕ, zero, suc, ◌+◌, ◌*◌, ◌/◌, ◌%◌, ◌^◌, Option, none, some, List, [], ◌∷◌, ◌==◌, if◌then◌else◌,
  leb, ltb, length, take, Bool,
}

-- `struct Message`. The block behind `data` is written once, before the message is shared, so it
-- is part of the value; a zeroed message has a null pointer, here no bytes.
pub record Message : Type 0 where
  pub type : ℕ
  pub hash : ℕ
  pub size : ℕ
  pub bytes : List ℕ

-- `generateRandSize` for the first number of `rand`. `none`: the loop does not end, since its body
-- is empty and leaves `randSize` at 0.
unfoldable pub generate_rand_size : ℕ → Option ℕ
generate_rand_size r =
    let rand_size = r % 257 in
    if rand_size == 0 then none else some (if rand_size == 256 then 0 else rand_size)

-- `((size + 3) / 4) * 4`
abbrev pub padded : ℕ → ℕ
padded size = ((size + 3) / 4) * 4

-- The loop of `generateDataMessage`: `rounds` characters from the i-th number of `rand` on.
unfoldable pub fill : (ℕ → ℕ) → ℕ → ℕ → List ℕ
fill rand i zero = []
fill rand i (suc rounds) = (33 + rand i % 93) ∷ fill rand (i + 1) rounds

unfoldable pub generate_data_message : (ℕ → ℕ) → ℕ → List ℕ
unfolding fill
generate_data_message rand size =
    let size = if size == 0 then 256 else size in fill rand 0 (padded size)

-- `msg.size != 0 ? ((msg.size + 3) / 4 * 4) : 256`
abbrev pub data_length : ℕ → ℕ
data_length size = if size == 0 then 256 else padded size

-- `readData`: the characters printed. `none`: it reads behind the end of the data.
unfoldable pub read_data : Message → Option (List ℕ)
read_data msg =
    let n = data_length msg.size in
    if leb n (length msg.bytes) then some (take n msg.bytes) else none

-- The loop over `hash`, an unsigned 16-bit number; the characters are below 128, so a signed
-- `char` gives their value. `rounds` bounds the index.
unfoldable pub add_hash : ℕ → List ℕ → ℕ → ℕ
add_hash hash bytes zero = hash
add_hash hash [] (suc rounds) = hash
add_hash hash (c ∷ bytes) (suc rounds) = add_hash ((hash + c) % 2 ^ 16) bytes rounds

-- What `generateMessage` makes once it has the size.
unfoldable pub message_of : (ℕ → ℕ) → ℕ → Message
unfolding generate_data_message add_hash
message_of rand size =
    let bytes = generate_data_message rand size in
    record {
      type = b'S';
      hash = add_hash ((b'S' + size) % 2 ^ 16) bytes (data_length size);
      size = size;
      bytes = bytes;
    }

abbrev pub of_size : (ℕ → ℕ) → Option ℕ → Option Message
of_size rand none = none
of_size rand (some size) = some (message_of rand size)

-- `sizeof(struct Message*)` and `sizeof(struct Message)`, with 8 bytes for a pointer.
abbrev pub pointer_bytes : ℕ
pointer_bytes = 8

abbrev pub struct_bytes : ℕ
struct_bytes = 16

-- `generateMessage`: `r` is the first number of `rand`, then come those of `rand`. It asks `malloc`
-- for the bytes of a pointer and writes a whole struct into the block. `usable` is how many bytes of
-- a block may be written, given how many were asked for. `none`: the struct does not fit, which is
-- undefined, or the loop for the size does not end.
unfoldable pub generate_message : (ℕ → ℕ) → ℕ → (ℕ → ℕ) → Option Message
generate_message usable r rand =
    if ltb (usable pointer_bytes) struct_bytes then none else of_size rand (generate_rand_size r)
