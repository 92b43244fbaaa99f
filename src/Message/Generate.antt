-- ===== src/Message/Generate.antt =====
-- `generateMessage` of Lab5/functions.c: the length, the characters and the checksum of a message.
use osisp_labs.Common.{
  ℕ, zero, suc, ◌+◌, ◌*◌, ◌%◌, ◌≤◌, ◌<◌, ◌≡◌, ◌≢◌, ◌↔◌, refl, ap, ◌∙◌, sym, none, some, List, [],
  ◌∷◌, arith, ◌==◌, if◌then◌else◌, leb, ltb, length, take, true, false,
}
use native.Mathlib.Decide.{ℕ_discrete}
use osisp_labs.Message.{
  Message, generate_rand_size, padded, fill, generate_data_message, data_length, read_data,
  add_hash, message_of, of_size, generate_message,
}

abbrev pub sum : List ℕ → ℕ
sum [] = 0
sum (c ∷ cs) = c + sum cs

-- Only printable characters.
abbrev pub IsPrintable : List ℕ → Type 0
IsPrintable [] = Unit
IsPrintable (c ∷ cs) = (33 ≤ c) × (c ≤ 125) × IsPrintable cs

-- What a reader relies on.
pub record IsMessage (m : Message) : Type 0 where
  pub small : m.size < 256
  pub whole : length m.bytes ≡ data_length m.size
  pub printable : IsPrintable m.bytes
  pub checksum : m.hash ≡ m.type + m.size + sum m.bytes
  pub typed : m.type ≡ b'S'

length-fill : (rand : ℕ → ℕ) (i n : ℕ) → length (fill rand i n) ≡ n
unfolding fill
length-fill rand i zero = refl
length-fill rand i (suc n) = ap suc (length-fill rand (i + 1) n)

fill-IsPrintable : (rand : ℕ → ℕ) (i n : ℕ) → IsPrintable (fill rand i n)
unfolding fill
fill-IsPrintable rand i zero = tt
fill-IsPrintable rand i (suc n) = (omega arith, omega arith, fill-IsPrintable rand (i + 1) n)

sum-IsPrintable : (cs : List ℕ) → IsPrintable cs → sum cs ≤ 125 * length cs
sum-IsPrintable [] h = omega arith
sum-IsPrintable (c ∷ cs) (a, b, h) = omega (arith, sum-IsPrintable cs h)

-- The 16-bit sum does not wrap while the sum fits.
add_hash_lem :
    (cs : List ℕ) (hash n : ℕ)
    → length cs ≡ n
    → hash + sum cs < 65536
    → add_hash hash cs n ≡ hash + sum cs
unfolding add_hash
add_hash_lem [] hash zero e h = omega arith
add_hash_lem [] hash (suc n) e h = absurd (omega arith)
add_hash_lem (c ∷ cs) hash zero e h = absurd (omega arith)
add_hash_lem (c ∷ cs) hash (suc n) e h =
    let wrap : (hash + c) % 65536 ≡ hash + c = omega arith in
    ap (λ k. add_hash k cs n) wrap
    ∙ add_hash_lem cs (hash + c) n (omega arith) (omega arith)
    ∙ omega arith

length-data :
    (rand : ℕ → ℕ) (size : ℕ) → length (generate_data_message rand size) ≡ data_length size
unfolding generate_data_message
length-data rand zero = length-fill rand 0 256
length-data rand (suc n) =
    let nonzero : (suc n == 0) ≡ false = ground arith in
    rw (nonzero) (length-fill rand 0 (padded (suc n)))

data_length_le : (size : ℕ) → size < 256 → data_length size ≤ 256
data_length_le zero h = omega arith
data_length_le (suc n) h = ground arith

data-IsPrintable : (rand : ℕ → ℕ) (size : ℕ) → IsPrintable (generate_data_message rand size)
unfolding generate_data_message
data-IsPrintable rand size = fill-IsPrintable rand 0 (padded (if size == 0 then 256 else size))

pub message_of-IsMessage : (rand : ℕ → ℕ) (size : ℕ) → size < 256 → IsMessage (message_of rand size)
unfolding message_of
message_of-IsMessage rand size h =
    let bytes = generate_data_message rand size in
    let whole : length bytes ≡ data_length size = length-data rand size in
    let printable = data-IsPrintable rand size in
    let few : 83 + size + sum bytes < 65536 =
      omega (arith, whole, sum-IsPrintable bytes printable, data_length_le size h) in
    let start : (83 + size) % 65536 ≡ 83 + size = omega arith in
    record {
      small = h;
      whole = whole;
      printable = printable;
      checksum =
          ap (λ k. add_hash k bytes (data_length size)) start
          ∙ add_hash_lem bytes (83 + size) (data_length size) whole few;
      typed = refl;
    }

rand_size_none : (r : ℕ) → r % 257 ≡ 0 → generate_rand_size r ≡ none
unfolding generate_rand_size
rand_size_none r h = ground arith

rand_size_lem :
    (r : ℕ) → r % 257 ≢ 0 → (size : ℕ) × (size < 256) × (generate_rand_size r ≡ some size)
unfolding generate_rand_size
rand_size_lem r h = elim (ℕ_discrete (r % 257) 256) [
  | yes e ↦ (0, omega arith, ground arith)
  | no ne ↦ (r % 257, omega arith, ground arith)
]

generate_message_lem :
    (usable : ℕ → ℕ) (r : ℕ) (rand : ℕ → ℕ)
    → 16 ≤ usable 8
    → generate_message usable r rand ≡ of_size rand (generate_rand_size r)
unfolding generate_message
generate_message_lem usable r rand h =
    let fits : ltb (usable 8) 16 ≡ false = ground (arith, h) in rw fits refl

-- Where `malloc` gives no more than it is asked for, each call writes behind the block.
pub generate_message_overruns :
    (usable : ℕ → ℕ) (r : ℕ) (rand : ℕ → ℕ) → usable 8 ≡ 8 → generate_message usable r rand ≡ none
unfolding generate_message
generate_message_overruns usable r rand e = rw e refl

-- Where a block that `malloc` gives for 8 bytes has room for the 16 that are written into it:
-- whatever `rand` gives, unless its first number is a multiple of 257, `generateMessage` makes a
-- message with as many characters as a reader reads, all printable, and with the plain sum of
-- type, size and characters as its hash: 16 bits are enough.
pub generate_message-IsMessage :
    (usable : ℕ → ℕ) (r : ℕ) (rand : ℕ → ℕ)
    → 16 ≤ usable 8
    → r % 257 ≢ 0
    → (m : Message) × (generate_message usable r rand ≡ some m) × IsMessage m
generate_message-IsMessage usable r rand room h =
    let (size, small, e) = rand_size_lem r h in
    (
      message_of rand size,
      generate_message_lem usable r rand room ∙ ap (of_size rand) e,
      message_of-IsMessage rand size small,
    )

take_all : (cs : List ℕ) → take (length cs) cs ≡ cs
take_all [] = refl
take_all (c ∷ cs) = ap (◌∷◌ c) (take_all cs)

-- `readData` prints the whole data of a message of this kind, and stays inside of it.
pub read_data-IsMessage : (m : Message) → IsMessage m → read_data m ≡ some m.bytes
unfolding read_data
read_data-IsMessage m v =
    let inside : leb (data_length m.size) (length m.bytes) ≡ true = ground (arith, v.whole) in
    rw (inside, sym v.whole) (ap some (take_all m.bytes))

-- With that room `generateMessage` hangs exactly when the first number of `rand` is a multiple of 257.
pub generate_message_hangs :
    (usable : ℕ → ℕ) (r : ℕ) (rand : ℕ → ℕ)
    → 16 ≤ usable 8
    → (generate_message usable r rand ≡ none) ↔ (r % 257 ≡ 0)
generate_message_hangs usable r rand room = (
  (λ e. elim (ℕ_discrete (r % 257) 0) [
    | yes z ↦ z
    | no ne ↦
        let (size, _, f) = rand_size_lem r ne in
        absurd (
          let g : some (message_of rand size) ≡ none =
            sym (generate_message_lem usable r rand room ∙ ap (of_size rand) f) ∙ e in
          cc)
  ]),
  λ z. generate_message_lem usable r rand room ∙ ap (of_size rand) (rand_size_none r z),
)
