-- ===== src/IndexFile/Written.antt =====
-- What has been written to a file of index records is read back.
use mathlib.Core.List.{append_assoc, append-nil}
use osisp_labs.Common.{
  done, ℕ, suc, ◌+◌, ◌^◌, ◌<◌, ◌≡◌, refl, sym, ap, ◌∙◌, true, false, some, List, [], ◌∷◌, ◌++◌, ltb,
  length, take, drop, length-append, bytes_of, number_of, number_of-bytes_of, length-bytes_of,
  arith,
}
use osisp_labs.ExternalSort.{Index}
use osisp_labs.IndexFile.{index_bytes, all_bytes, header_bytes, read_records, read_binary_file}

-- The numbers of a record have 64 bits.
abbrev pub IsWord : ℕ → Type 0
IsWord n = n < 2 ^ 64

abbrev pub AreWords : List (Index ℕ) → Type 0
AreWords [] = Unit
AreWords (x ∷ xs) = (IsWord x.time_mark × IsWord x.recno) × AreWords xs

pub word : (n : ℕ) → IsWord n → number_of (bytes_of 8 n) ≡ n
word n h = number_of-bytes_of 8 n (omega (arith, h))

-- Two words at the start of a list of bytes.
pub two_words :
    (a b : ℕ) (rest : List ℕ)
    → IsWord a
    → IsWord b
    → (number_of (take 8 ((bytes_of 8 a ++ bytes_of 8 b) ++ rest)) ≡ a)
      × (number_of (take 8 (drop 8 ((bytes_of 8 a ++ bytes_of 8 b) ++ rest))) ≡ b)
      × (drop 16 ((bytes_of 8 a ++ bytes_of 8 b) ++ rest) ≡ rest)
unfolding bytes_of
two_words a b rest ha hb = (word a ha, word b hb, refl)

enough :
    (a b : ℕ) (rest : List ℕ) → ltb (length ((bytes_of 8 a ++ bytes_of 8 b) ++ rest)) 16 ≡ false
enough a b rest =
    let size : length ((bytes_of 8 a ++ bytes_of 8 b) ++ rest) ≡ 16 + length rest = omega (
      arith,
      length-append (bytes_of 8 a ++ bytes_of 8 b) rest,
      length-append (bytes_of 8 a) (bytes_of 8 b),
      length-bytes_of 8 a,
      length-bytes_of 8 b,
    ) in
    ground (arith, size)

read_one :
    (left : ℕ) (x : Index ℕ) (xs : List (Index ℕ)) (rest : List ℕ)
    → IsWord x.time_mark
    → IsWord x.recno
    → read_records left rest ≡ some xs
    → read_records (suc left) (index_bytes x ++ rest) ≡ some (x ∷ xs)
unfolding read_records
read_one left x xs rest hm hr e =
    let (m, r, after) = two_words x.time_mark x.recno rest hm hr in
    rw (read_records, enough x.time_mark x.recno rest, m, r, after, e) refl

pub read_records-all_bytes :
    (xs : List (Index ℕ)) (rest : List ℕ)
    → AreWords xs
    → read_records (length xs) (all_bytes xs ++ rest) ≡ some xs
unfolding read_records all_bytes
read_records-all_bytes [] rest h = refl
read_records-all_bytes (x ∷ xs) rest ((hm, hr), hs) =
    ap (read_records (suc (length xs))) (append_assoc (index_bytes x) (all_bytes xs) rest)
    ∙ read_one (length xs) x xs (all_bytes xs ++ rest) hm hr (read_records-all_bytes xs rest hs)

-- A file of a header and records.
abbrev pub file_of : ℕ → List (Index ℕ) → List ℕ
file_of idx xs = header_bytes (length xs) idx ++ all_bytes xs

pub read_binary_file-file_of :
    (xs : List (Index ℕ)) (idx block : ℕ)
    → AreWords xs
    → IsWord idx
    → length xs < 2 ^ 60
    → read_binary_file (some block) (file_of idx xs) ≡ done (length xs, xs)
unfolding read_binary_file
read_binary_file-file_of xs idx block h hi few =
    let (n, p, after) = two_words (length xs) idx (all_bytes xs) (omega (arith, few)) hi in
    let small : ltb (length xs) (2 ^ 60) ≡ true = ground (arith, few) in
    let whole : read_records (length xs) (all_bytes xs) ≡ some xs =
      ap (read_records (length xs)) (sym (append-nil (all_bytes xs)))
      ∙ read_records-all_bytes xs [] h in
    rw (read_binary_file, enough (length xs) idx (all_bytes xs), n, small, after, whole) refl
