-- ===== src/RecordFile/Records.antt =====
-- The file of Lab7/main.c as a list of records that fit into their fields, and what a write does to
-- it.
use osisp_labs.Common.{
  ℕ, zero, suc, ◌-◌, ◌≤◌, true, false, List, [], ◌∷◌, ◌++◌, arith, ltb, if◌then◌else◌, set, length,
  length-append, length-set, replicate, get_or,
}
use osisp_labs.RecordFile.{Record, write_record, zero_record}
use osisp_labs.RecordFile.Modify.{IsRecord}

abbrev pub AreRecords : List Record → Type 0
AreRecords [] = Unit
AreRecords (r ∷ rs) = IsRecord r × AreRecords rs

pub set-AreRecords :
    (rs : List Record) (m : ℕ) (r : Record) → AreRecords rs → IsRecord r → AreRecords (set rs m r)
set-AreRecords [] m r h hr = tt
set-AreRecords (x ∷ rs) zero r h hr = (hr, h.1)
set-AreRecords (x ∷ rs) (suc m) r h hr = (h.0, set-AreRecords rs m r h.1 hr)

append-AreRecords :
    (rs more : List Record) → AreRecords rs → AreRecords more → AreRecords (rs ++ more)
append-AreRecords [] more h k = k
append-AreRecords (r ∷ rs) more h k = (h.0, append-AreRecords rs more h.1 k)

zero_record-IsRecord : IsRecord zero_record
zero_record-IsRecord = record {
  name_fits = omega arith;
  address_fits = omega arith;
  semester_fits = omega arith;
}

zeros-AreRecords : (n : ℕ) → AreRecords (replicate n zero_record)
zeros-AreRecords zero = tt
zeros-AreRecords (suc n) = (zero_record-IsRecord, zeros-AreRecords n)

pub get_or-IsRecord :
    (rs : List Record) (n : ℕ) (d : Record) → AreRecords rs → IsRecord d → IsRecord (get_or rs n d)
get_or-IsRecord [] n d h k = k
get_or-IsRecord (r ∷ rs) zero d h k = h.0
get_or-IsRecord (r ∷ rs) (suc n) d h k = get_or-IsRecord rs n d h.1 k

-- A write makes a file of records from one, which is no shorter.
pub write_record-AreRecords :
    (file : List Record) (n : ℕ) (r : Record)
    → AreRecords file
    → IsRecord r
    → AreRecords (write_record file n r)
unfolding write_record
write_record-AreRecords file n r h hr =
    elim (ltb n (length file))
      as (λ c. AreRecords (
        if c
        then set file n r
        else file ++ (replicate (n - length file) zero_record ++ (r ∷ [])))) [
          | true ↦ set-AreRecords file n r h hr
          | false ↦ append-AreRecords file (replicate (n - length file) zero_record ++ (r ∷ [])) h (
              append-AreRecords (replicate (n - length file) zero_record) (r ∷ [])
                (zeros-AreRecords (n - length file)) (hr, tt))
        ]

pub length-write_record :
    (file : List Record) (n : ℕ) (r : Record) → length file ≤ length (write_record file n r)
unfolding write_record
length-write_record file n r = ground (
  arith,
  length-set file n r,
  length-append file (replicate (n - length file) zero_record ++ (r ∷ [])),
)
