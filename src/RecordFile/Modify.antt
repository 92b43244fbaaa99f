-- ===== src/RecordFile/Modify.antt =====
-- `modifyRecord` of Lab7/main.c: what is typed fits into the fields of a record.
use osisp_labs.Common.{
  ℕ, zero, suc, ◌%◌, ◌<◌, ◌≤◌, Option, none, some, List, [], ◌∷◌, arith, length,
}
use osisp_labs.RecordFile.{Record, modify_record, fgets, filled}

-- A record as the program stores it: strings with their end in 80 characters, a byte.
pub record IsRecord (r : Record) : Type 0 where
  pub name_fits : length r.name < 80
  pub address_fits : length r.address < 80
  pub semester_fits : r.semester < 256

-- `fgets` takes at most n - 1 characters.
length-fgets : (n : ℕ) (input : List ℕ) → length (fgets (suc n) input).0 ≤ n
unfolding fgets
length-fgets zero input = omega arith
length-fgets (suc n) [] = omega arith
length-fgets (suc n) (c ∷ input) = ground (arith, length-fgets n input)

length-filled : (s old : List ℕ) (n : ℕ) → length s < n → length old < n → length (filled s old) < n
length-filled [] old n h k = k
length-filled (c ∷ s) old n h k = h

byte_fits :
    (o : Option ℕ) (old : ℕ)
    → old < 256
    → elim o as (λ _. ℕ) [ none ↦ old | some n ↦ n % 256 ] < 256
byte_fits none old h = h
byte_fits (some n) old h = omega arith

-- What the user types never leaves the fields: `modifyRecord` makes a record of the file's form
-- from one, whatever the input and `scanf`.
pub modify_record-IsRecord :
    (scanf : List ℕ → Option ℕ) (input : List ℕ) (r : Record)
    → IsRecord r
    → IsRecord (modify_record scanf input r)
unfolding modify_record
modify_record-IsRecord scanf input r h = record {
  name_fits =
      length-filled (fgets 80 input).0 r.name 80 (omega (arith, length-fgets 79 input)) h.name_fits;
  address_fits =
      length-filled (fgets 80 (fgets 80 input).1).0 r.address 80
        (omega (arith, length-fgets 79 (fgets 80 input).1)) h.address_fits;
  semester_fits = byte_fits (scanf (fgets 80 (fgets 80 input).1).1) r.semester h.semester_fits;
}
