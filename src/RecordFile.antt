-- ===== src/RecordFile.antt =====
-- Lab7/main.c: the editor of a file of student records, shared with other processes by record
-- locks. The file is the list of its records. A handler takes the file as it is when its lock is
-- granted: others may have changed it before. `granted` says whether `fcntl` took the lock.
pub mod Save
pub mod Modify
pub mod Session
pub mod Records
pub mod Desk
pub mod Tests
use osisp_labs.Common.{
  ℕ, zero, suc, ◌+◌, ◌-◌, ◌%◌, Bool, true, false, not, ◌&&◌, ◌||◌, Option, none, some, List, [],
  ◌∷◌, ◌++◌, ltb, leb, ◌==◌, if◌then◌else◌, get_elem?, set, length, replicate, get_or,
}

-- `record_s`; a `char[80]` by the C string in it.
pub record Record : Type 0 where
  pub name : List ℕ
  pub address : List ℕ
  pub semester : ℕ

-- `strcmp(a, b) == 0`
unfoldable pub same_string : List ℕ → List ℕ → Bool
same_string [] [] = true
same_string [] (b ∷ ys) = false
same_string (a ∷ xs) [] = false
same_string (a ∷ xs) (b ∷ ys) = a == b && same_string xs ys

unfoldable pub same_record : Record → Record → Bool
unfolding same_string
same_record a b =
    same_string a.name b.name && same_string a.address b.address && a.semester == b.semester

-- What the handlers print and which locks they take and give back.
pub data Effect : Type 0 where
  lock_file unlock_file : Effect
  read_lock write_lock unlock : ℕ → Effect
  show : ℕ → Record → Effect
  too_big changed : Effect

-- `printAllFile`: the records from number `i` on
unfoldable pub print_records : ℕ → List Record → List Effect
print_records i [] = []
print_records i (r ∷ rs) = show i r ∷ print_records (i + 1) rs

unfoldable pub print_all_file : Bool → List Record → List Effect
unfolding print_records
print_all_file granted file =
    if granted then lock_file ∷ (print_records 0 file ++ (unlock_file ∷ [])) else []

-- `getRecordNumb`: what `*record` is then. A `read` at the end of the file changes nothing.
unfoldable pub get_record_numb : Bool → List Record → ℕ → Record → List Effect × Record
get_record_numb granted file numb old =
    let found = get_or file numb old in
    if granted then (read_lock numb ∷ show numb found ∷ unlock numb ∷ [], found) else ([], old)

-- `fgets(s, n, stdin)`: the characters taken and those left
unfoldable pub fgets : ℕ → List ℕ → List ℕ × List ℕ
fgets zero input = ([], input)
fgets (suc zero) input = ([], input)
fgets (suc (suc n)) [] = ([], [])
fgets (suc (suc n)) (c ∷ input) =
    let (taken, rest) = fgets (suc n) input in
    if c == 10 then (c ∷ [], input) else (c ∷ taken, rest)

-- What a field holds after `fgets`: at the end of the input it is left as it was.
abbrev filled : List ℕ → List ℕ → List ℕ
filled [] old = old
filled (c ∷ cs) old = c ∷ cs

-- `modifyRecord`, with what it leaves of the input before `scanf`. `scanf` is the C library's: the
-- number that it stores, if there is one.
unfoldable pub modify_record : (List ℕ → Option ℕ) → List ℕ → Record → Record
unfolding fgets
modify_record scanf input r =
    let (name, input') = fgets 80 input in
    let (address, input'') = fgets 80 input' in
    record {
      name = filled name r.name;
      address = filled address r.address;
      semester = elim (scanf input'') [ none ↦ r.semester | some n ↦ n % 256 ];
    }

-- The outcome of `saveRecord`: the file, `*record`, `*oldRecord`, and what was printed and locked.
pub record Saved : Type 0 where
  pub file : List Record
  pub new : Record
  pub old : Record
  pub effects : List Effect

-- A `write` of one record: over a record of the file, or behind its end. What lies between the end
-- of the file and the record is then read as zeros.
abbrev pub zero_record : Record
zero_record = record { name = []; address = []; semester = 0 }

unfoldable pub write_record : List Record → ℕ → Record → List Record
write_record file numb r =
    if ltb numb (length file)
    then set file numb r
    else file ++ (replicate (numb - length file) zero_record ++ (r ∷ []))

-- `saveRecord`. At the end of the file `read` leaves `tmpRecord` as it was: `junk`. `symbol` is the
-- answer to the question.
unfoldable pub save_record : Bool → Record → ℕ → List Record → ℕ → Record → Record → Saved
unfolding same_record write_record
save_record granted junk symbol file numb new old =
    let tmp = get_or file numb junk in
    let written = write_record file numb new in
    if granted
    then (if same_record tmp old
        then record {
          file = written;
          new = new;
          old = old;
          effects = write_lock numb ∷ unlock numb ∷ [];
        }
        else if symbol == b'n'
        then record { file = file; new = tmp; old = tmp; effects = write_lock numb ∷ changed ∷ [] }
        else record {
          file = written;
          new = new;
          old = old;
          effects = write_lock numb ∷ changed ∷ unlock numb ∷ [];
        })
    else record { file = file; new = new; old = old; effects = [] }

-- The variables of `main`.
pub record Editor : Type 0 where
  pub file : List Record
  pub size : ℕ
  pub current_record : ℕ
  pub old : Record
  pub new : Record

-- One round of the loop of `main`, for a number that is not negative: `symbol` and `number` are the
-- first character and `atoi(symbols + 1)`, `granted`, `answer` and `modified` what the system and
-- the user give.
pub record Input : Type 0 where
  pub symbol : ℕ
  pub number : ℕ
  pub granted : Bool
  pub answer : ℕ
  pub junk : Record
  pub typed : List ℕ

module _ (scanf : List ℕ → Option ℕ) where
  unfoldable pub step : Editor → Input → List Effect × Editor × Bool
  unfolding print_all_file get_record_numb modify_record save_record
  step s i =
      if i.symbol == b'p'
      then (print_all_file i.granted s.file, s, true)
      else if i.symbol == b'g'
      then (if leb s.size i.number
          then (too_big ∷ [], record s { current_record = i.number }, true)
          else (
            (get_record_numb i.granted s.file i.number s.old).0,
            record s {
              current_record = i.number;
              old = (get_record_numb i.granted s.file i.number s.old).1;
            },
            true,
          ))
      else if i.symbol == b'r'
      then ([], record s { new = modify_record scanf i.typed s.old }, true)
      else if i.symbol == b's'
      then (let saved = save_record i.granted i.junk i.answer s.file s.current_record s.new s.old in
          (saved.effects, record s { file = saved.file; old = saved.old; new = saved.new }, true))
      else if i.symbol == b'q'
      then ([], s, false)
      else ([], s, true)
