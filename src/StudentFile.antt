-- ===== src/StudentFile.antt =====
-- Lab7/createFile.c writes the file of student records that Lab7/main.c edits, and Lab7/readFile.c
-- prints it. A file is the list of its bytes. `rand` is given by the number of its call; `junk` is
-- what the memory of a record holds behind the two strings.
pub mod Written
pub mod Lines
pub mod Edited
mod Tests
use mathlib.Core.Option
use osisp_labs.Common.{
  ℕ, zero, suc, ◌+◌, ◌*◌, ◌/◌, ◌%◌, ◌>>=◌, Bool, true, false, Option, none, some, List, [], ◌∷◌,
  ◌++◌, ltb, ◌==◌, if◌then◌else◌, length, take, drop, get_or, Outcome, done, exits, undefined,
}
use osisp_labs.RecordFile.{Record, Editor}

-- `record_s` with all bytes of its fields
pub record Stored : Type 0 where
  pub name : List ℕ
  pub address : List ℕ
  pub semester : ℕ

-- `sizeof(struct record_s)`
abbrev pub record_size : ℕ
record_size = 161

abbrev pub stored_bytes : Stored → List ℕ
stored_bytes r = r.name ++ (r.address ++ (r.semester ∷ []))

module _ (rand : ℕ → ℕ) (junk : ℕ → List ℕ × List ℕ) where
  -- The loop over the letters, from a call of `rand` on, with so many left.
  unfoldable pub random_letters : ℕ → ℕ → List ℕ × List ℕ
  random_letters call zero = ([], [])
  random_letters call (suc left) =
      let (name, address) = random_letters (call + 2) left in
      ((b'A' + rand call % 26) ∷ name, (b'a' + rand (call + 1) % 26) ∷ address)

  unfoldable pub random_record : ℕ → Stored
  unfolding random_letters
  random_record i =
      let (name, address) = random_letters (61 * i) 30 in
      record {
        name = name ++ (10 ∷ 0 ∷ (junk i).0);
        address = address ++ (10 ∷ 0 ∷ (junk i).1);
        semester = rand (61 * i + 60) % 10 + 1;
      }

  -- The loop over the records, from number `i` on.
  unfoldable pub random_file : ℕ → ℕ → List ℕ
  unfolding random_record
  random_file i zero = []
  random_file i (suc left) = stored_bytes (random_record i) ++ random_file (suc i) left

  -- `main` of createFile.c: does the file open, and how many records are asked for?
  unfoldable pub create_file : Bool → ℕ → Outcome (List ℕ)
  unfolding random_file
  create_file false num_records = exits
  create_file true num_records = done (random_file 0 num_records)

-- The string that `%s` prints from a field. `none`: the field has no end, and `printf` reads on
-- behind it.
unfoldable pub field_string : List ℕ → Option (List ℕ)
field_string [] = none
field_string (c ∷ field) =
    let rest = field_string field in if c == 0 then some [] else Option.map (λ s. c ∷ s) rest

-- What is printed of one record.
unfoldable pub load_record : List ℕ → Option Record
unfolding field_string
load_record bytes = do
  name ← field_string (take 80 bytes)
  address ← field_string (take 80 (drop 80 bytes))
  some (record { name = name; address = address; semester = get_or bytes 160 0 })

-- The loop over the records of a file; a part of a record at the end is not printed. Each round
-- takes a record, so the number of bytes is fuel enough.
unfoldable pub load_records : ℕ → List ℕ → Option (List Record)
unfolding load_record
load_records zero bytes = some []
load_records (suc fuel) bytes =
    let rest = load_records fuel (drop record_size bytes) in
    if ltb (length bytes) record_size
    then some []
    else load_record (take record_size bytes) >>= λ r. Option.map (λ rs. r ∷ rs) rest

abbrev pub shown_records : Option (List Record) → Outcome (List Record)
shown_records none = undefined
shown_records (some rs) = done rs

-- `main` of readFile.c: the records in the order of the lines.
unfoldable pub read_file : Bool → List ℕ → Outcome (List Record)
unfolding load_records
read_file false bytes = exits
read_file true bytes = shown_records (load_records (length bytes) bytes)

abbrev pub editor_on : ℕ → Record → Record → Option (List Record) → Outcome Editor
editor_on size old new none = undefined
editor_on size old new (some rs) =
    done (record { file = rs; size = size; current_record = 0; old = old; new = new })

-- The start of `main` of Lab7/main.c, on a file of whole records: `record` and `newRecord` hold
-- what the memory held.
unfoldable pub open_editor : Bool → List ℕ → Record → Record → Outcome Editor
unfolding load_records
open_editor false bytes old new = exits
open_editor true bytes old new =
    editor_on (length bytes / record_size) old new (load_records (length bytes) bytes)
