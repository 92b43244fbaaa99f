-- ===== src/IndexFile.antt =====
-- Lab6/createIndexFile.c writes the file that Lab6/main.c sorts, and Lab6/readBinaryFile.c prints it.
-- A file is the list of its bytes. A mark is the pattern of its double; the arithmetic of doubles is
-- an argument, as are `rand`, and the pointer that `malloc` gives: `none` is NULL.
pub mod Written
pub mod Pipeline
mod Tests
use osisp_labs.Common.{
  Outcome, done, exits, undefined, then_run, from_option, true, false, ℕ, zero, suc, ◌+◌, ◌*◌, ◌-◌,
  ◌/◌, ◌%◌, ◌^◌, Option, none, some, List, [], ◌∷◌, ◌++◌, ltb, if◌then◌else◌, length, take, drop,
  bytes_of, number_of, ◌>>=◌,
}
use osisp_labs.ExternalSort.{Index}

-- `index_s` in memory
abbrev pub index_bytes : Index ℕ → List ℕ
index_bytes x = bytes_of 8 x.time_mark ++ bytes_of 8 x.recno

unfoldable pub all_bytes : List (Index ℕ) → List ℕ
all_bytes [] = []
all_bytes (x ∷ xs) = index_bytes x ++ all_bytes xs

-- `index_hdr_s` in memory: the count, and the pointer as it was.
abbrev pub header_bytes : ℕ → ℕ → List ℕ
header_bytes records idx = bytes_of 8 records ++ bytes_of 8 idx

module _ (rand : ℕ → ℕ) (mark : ℕ → ℕ → ℕ) where
  -- The loop from record `i` on, with so many left; `rand` is given by the number of its call,
  -- and the two calls for a mark come in the order of the text, which C leaves open.
  unfoldable pub random_records : ℕ → ℕ → List (Index ℕ)
  random_records i zero = []
  random_records i (suc left) =
      record { time_mark = mark (rand (2 * i) % 36525) (rand (2 * i + 1) % 24); recno = i + 1 }
      ∷ random_records (suc i) left

  -- `main` of createIndexFile.c for a number of records below 2 ^ 64, with the file that it leaves.
  -- The size of the block wraps around; a block that is too small is written behind its end.
  unfoldable pub create_index_file : Option ℕ → ℕ → Outcome (List ℕ)
  unfolding random_records all_bytes
  create_index_file none num_records = exits
  create_index_file (some idx) num_records =
      if ltb num_records (2 ^ 60)
      then done (header_bytes num_records idx ++ all_bytes (random_records 0 num_records))
      else undefined

-- `fread(header.idx, sizeof(index_s), records, file)`. `none`: the file ends before, and what is
-- printed then is undefined.
unfoldable pub read_records : ℕ → List ℕ → Option (List (Index ℕ))
read_records zero bytes = some []
read_records (suc left) bytes = elim (ltb (length bytes) 16) [
  | true ↦ none
  | false ↦ read_records left (drop 16 bytes) >>= λ xs. some (
      record { time_mark = number_of (take 8 bytes); recno = number_of (take 8 (drop 8 bytes)) }
      ∷ xs)
]

-- What is printed: the count and the records.
abbrev pub printed : ℕ → Option (List (Index ℕ)) → Outcome (ℕ × List (Index ℕ))
printed records none = undefined
printed records (some xs) = done (records, xs)

-- `main` of readBinaryFile.c
unfoldable pub read_binary_file : Option ℕ → List ℕ → Outcome (ℕ × List (Index ℕ))
unfolding read_records
read_binary_file block file = elim (ltb (length file) 16) [
  | true ↦ undefined
  | false ↦ elim block [
    | none ↦ exits
    | some idx ↦
        let records = number_of (take 8 file) in
        if ltb records (2 ^ 60)
        then printed records (read_records records (drop 16 file))
        else undefined
  ]
]

-- Lab6/main.c at a file of bytes: the records behind the header are seen as an array, through
-- `mmap`, and `sort` is what the program makes of them.
unfoldable pub sort_bytes : (List (Index ℕ) → Option (List (Index ℕ))) → List ℕ → Outcome (List ℕ)
unfolding all_bytes read_records
sort_bytes sort file = from_option (do
  xs ← read_records ((length file - 16) / 16) (drop 16 file)
  ys ← sort xs
  some (take 16 file ++ (all_bytes ys ++ drop (16 + 16 * length ys) file)))
