-- ===== src/StudentFile/Written.antt =====
-- Lab7/createFile.c and Lab7/readFile.c: what is written to a file of records is read back.
use mathlib.Core.List.{append_assoc}
use osisp_labs.Common.{
  ℕ, zero, suc, ◌+◌, ◌*◌, ◌<◌, ◌≤◌, ◌≡◌, refl, sym, ap, ◌∙◌, true, false, some, List, [], ◌∷◌, ◌++◌,
  ltb, length, take, drop, get_or, length-append, take-append, drop-append, arith, done,
}
use osisp_labs.RecordFile.{Record}
use osisp_labs.StudentFile.{
  Stored, stored_bytes, field_string, load_record, load_records, shown_records, read_file,
}

-- A record in memory, and what is printed of it.
pub record IsStored (r : Stored) (v : Record) : Type 0 where
  pub name_size : length r.name ≡ 80
  pub address_size : length r.address ≡ 80
  pub name_ends : field_string r.name ≡ some v.name
  pub address_ends : field_string r.address ≡ some v.address
  pub semester_same : r.semester ≡ v.semester

abbrev pub AreStored : List Stored → List Record → Type 0
AreStored [] [] = Unit
AreStored [] (v ∷ vs) = ⊥
AreStored (r ∷ rs) [] = ⊥
AreStored (r ∷ rs) (v ∷ vs) = IsStored r v × AreStored rs vs

abbrev pub stored_file : List Stored → List ℕ
stored_file [] = []
stored_file (r ∷ rs) = stored_bytes r ++ stored_file rs

get_or-behind :
    (xs ys : List ℕ) (n k d : ℕ) → length xs + k ≡ n → get_or (xs ++ ys) n d ≡ get_or ys k d
get_or-behind [] ys n k d e = ap (λ m. get_or ys m d) (omega (arith, e))
get_or-behind (x ∷ xs) ys zero k d e = absurd (omega (arith, e))
get_or-behind (x ∷ xs) ys (suc n) k d e = get_or-behind xs ys n k d (omega (arith, e))

pub length-stored_bytes : (r : Stored) (v : Record) → IsStored r v → length (stored_bytes r) ≡ 161
length-stored_bytes r v h = omega (
  arith,
  length-append r.name (r.address ++ (r.semester ∷ [])),
  length-append r.address (r.semester ∷ []),
  h.name_size,
  h.address_size,
)

load_record-stored_bytes :
    (r : Stored) (v : Record) → IsStored r v → load_record (stored_bytes r) ≡ some v
unfolding load_record
load_record-stored_bytes r v h =
    let behind = r.address ++ (r.semester ∷ []) in
    let name : take 80 (r.name ++ behind) ≡ r.name =
      take-append r.name behind 80 (sym h.name_size) in
    let after : drop 80 (r.name ++ behind) ≡ behind =
      drop-append r.name behind 80 (sym h.name_size) in
    let address : take 80 behind ≡ r.address =
      take-append r.address (r.semester ∷ []) 80 (sym h.address_size) in
    let semester : get_or (r.name ++ behind) 160 0 ≡ v.semester =
      get_or-behind r.name behind 160 80 0 (omega (arith, h.name_size))
      ∙ get_or-behind r.address (r.semester ∷ []) 80 0 0 (omega (arith, h.address_size))
      ∙ h.semester_same in
    rw (name, after, address, h.name_ends, h.address_ends, semester) refl

-- A file of stored records and a part of one is read to the last whole record.
pub load_records-stored_file :
    (rs : List Stored) (vs : List Record) (rest : List ℕ) (fuel : ℕ)
    → AreStored rs vs
    → length rest < 161
    → length rs ≤ fuel
    → load_records fuel (stored_file rs ++ rest) ≡ some vs
unfolding load_records
load_records-stored_file [] [] rest zero h short enough = refl
load_records-stored_file [] [] rest (suc fuel) h short enough =
    let over : ltb (length rest) 161 ≡ true = ground (arith, short) in rw (over) refl
load_records-stored_file [] (v ∷ vs) rest fuel h short enough = absurd h
load_records-stored_file (r ∷ rs) [] rest fuel h short enough = absurd h
load_records-stored_file (r ∷ rs) (v ∷ vs) rest zero h short enough = absurd (omega (arith, enough))
load_records-stored_file (r ∷ rs) (v ∷ vs) rest (suc fuel) (h, hs) short enough =
    let file = stored_file rs ++ rest in
    let size : 161 ≡ length (stored_bytes r) = sym (length-stored_bytes r v h) in
    let whole : ltb (length (stored_bytes r ++ file)) 161 ≡ false =
      ground (arith, length-append (stored_bytes r) file, size) in
    let first : take 161 (stored_bytes r ++ file) ≡ stored_bytes r =
      take-append (stored_bytes r) file 161 size in
    let next : drop 161 (stored_bytes r ++ file) ≡ file =
      drop-append (stored_bytes r) file 161 size in
    ap (load_records (suc fuel)) (append_assoc (stored_bytes r) (stored_file rs) rest)
    ∙ rw
        (
          load_records,
          whole,
          first,
          next,
          load_record-stored_bytes r v h,
          load_records-stored_file rs vs rest fuel hs short (omega (arith, enough)),
        )
        refl

pub length-stored_file :
    (rs : List Stored) (vs : List Record)
    → AreStored rs vs
    → length (stored_file rs) ≡ 161 * length rs
length-stored_file [] [] h = refl
length-stored_file [] (v ∷ vs) h = absurd h
length-stored_file (r ∷ rs) [] h = absurd h
length-stored_file (r ∷ rs) (v ∷ vs) (h, hs) = omega (
  arith,
  length-append (stored_bytes r) (stored_file rs),
  length-stored_bytes r v h,
  length-stored_file rs vs hs,
)

-- readFile.c prints every whole record of a file, and nothing of a part of a record behind them,
-- if each string of the records has its end in its field.
pub read_file-stored_file :
    (rs : List Stored) (vs : List Record) (rest : List ℕ)
    → AreStored rs vs
    → length rest < 161
    → read_file true (stored_file rs ++ rest) ≡ done vs
unfolding read_file
read_file-stored_file rs vs rest h short = ap shown_records (
    load_records-stored_file rs vs rest (length (stored_file rs ++ rest)) h short
      (omega (arith, length-append (stored_file rs) rest, length-stored_file rs vs h)))
