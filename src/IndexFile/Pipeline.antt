-- ===== src/IndexFile/Pipeline.antt =====
-- The three programs on the index file of Lab6 one after the other.
use mathlib.Core.List.{Perm, Permᴰ, append-nil}
use mathlib.Core.Logic.{∥∥₁_elim}
use mathlib.Core.Bool.{Bool-set}
use osisp_labs.Common.{
  done, then_run, ℕ, zero, suc, ◌+◌, ◌-◌, ◌*◌, ◌/◌, ◌^◌, ◌<◌, ◌≤◌, ◌≡◌, refl, sym, ap, ap₂, ◌∙◌,
  true, false, Bool, ◌&&◌, Option, some, List, [], ◌∷◌, ◌++◌, ltb, length, take, drop,
  length-append, take-append, drop-append, bytes_of, length-bytes_of, arith,
}
use osisp_labs.ExternalSort.{Index}
use osisp_labs.ExternalSort.Order.{IsOrder, IsQsort, IsSorted}
use osisp_labs.ExternalSort.Threads.Blocks.{perm-length}
use osisp_labs.ExternalSort.Main.{sort_file}
use osisp_labs.ExternalSort.Main.Chunk.{IsFair}
use osisp_labs.ExternalSort.Main.Sorts.{sort_file-IsSorted}
use osisp_labs.IndexFile.{
  index_bytes, all_bytes, header_bytes, random_records, create_index_file, read_records,
  read_binary_file, sort_bytes,
}
use osisp_labs.IndexFile.Written.{
  IsWord, AreWords, file_of, read_records-all_bytes, read_binary_file-file_of,
}

abbrev has_words : Index ℕ → Bool
has_words x = ltb x.time_mark (2 ^ 64) && ltb x.recno (2 ^ 64)

words : List (Index ℕ) → Bool
words [] = true
words (x ∷ xs) = has_words x && words xs

and_parts : (a b c : Bool) → ((a && b) && c) ≡ true → (a ≡ true) × (b ≡ true) × (c ≡ true)
and_parts true true true h = (refl, refl, refl)
and_parts true true false h = absurd (cc)
and_parts true false c h = absurd (cc)
and_parts false b c h = absurd (cc)

and_swap : (a b c : Bool) → a && (b && c) ≡ b && (a && c)
and_swap true b c = refl
and_swap false true c = refl
and_swap false false c = refl

words-AreWords : (xs : List (Index ℕ)) → words xs ≡ true → AreWords xs
unfolding words
words-AreWords [] h = tt
words-AreWords (x ∷ xs) h =
    let (hm, hr, hs) = and_parts (ltb x.time_mark (2 ^ 64)) (ltb x.recno (2 ^ 64)) (words xs) h in
    ((ground (arith, hm), ground (arith, hr)), words-AreWords xs hs)

AreWords-words : (xs : List (Index ℕ)) → AreWords xs → words xs ≡ true
unfolding words
AreWords-words [] h = refl
AreWords-words (x ∷ xs) ((hm, hr), hs) =
    let m : ltb x.time_mark (2 ^ 64) ≡ true = ground (arith, hm) in
    let r : ltb x.recno (2 ^ 64) ≡ true = ground (arith, hr) in rw (m, r) (AreWords-words xs hs)

perm_d-words : {xs ys : List (Index ℕ)} → Permᴰ xs ys → words xs ≡ words ys
unfolding words
perm_d-words Permᴰ.nil = refl
perm_d-words (Permᴰ.cons e p) = ap₂ ◌&&◌ (ap has_words e) (perm_d-words p)
perm_d-words (Permᴰ.swap {a} {b} {l = l} e f) =
    and_swap (has_words a) (has_words b) (words l)
    ∙ ap₂ (λ x y. x && (y && words l)) (ap has_words f) (ap has_words e)
perm_d-words (Permᴰ.trans p r) = perm_d-words p ∙ perm_d-words r

-- Words stay words in another order.
perm-AreWords : {xs ys : List (Index ℕ)} → Perm xs ys → AreWords ys → AreWords xs
perm-AreWords {xs} {ys} p h =
    words-AreWords xs (∥∥₁_elim p (Bool-set _ _) perm_d-words ∙ AreWords-words ys h)

pub length-random_records :
    (rand : ℕ → ℕ) (mark : ℕ → ℕ → ℕ) (i n : ℕ) → length (random_records rand mark i n) ≡ n
unfolding random_records
length-random_records rand mark i zero = refl
length-random_records rand mark i (suc n) = ap suc (length-random_records rand mark (suc i) n)

pub random_records-AreWords :
    (rand : ℕ → ℕ) (mark : ℕ → ℕ → ℕ) (i n : ℕ)
    → ((d h : ℕ) → IsWord (mark d h))
    → i + n < 2 ^ 60
    → AreWords (random_records rand mark i n)
unfolding random_records
random_records-AreWords rand mark i zero h k = tt
random_records-AreWords rand mark i (suc n) h k =
    ((h _ _, omega (arith, k)), random_records-AreWords rand mark (suc i) n h (omega (arith, k)))

length-all_bytes : (xs : List (Index ℕ)) → length (all_bytes xs) ≡ 16 * length xs
unfolding all_bytes
length-all_bytes [] = refl
length-all_bytes (x ∷ xs) = omega (
  arith,
  length-append (index_bytes x) (all_bytes xs),
  length-append (bytes_of 8 x.time_mark) (bytes_of 8 x.recno),
  length-bytes_of 8 x.time_mark,
  length-bytes_of 8 x.recno,
  length-all_bytes xs,
)

drop_behind : (n : ℕ) (bytes : List ℕ) → length bytes ≤ n → drop n bytes ≡ []
drop_behind zero [] h = refl
drop_behind zero (b ∷ bytes) h = absurd (omega (arith, h))
drop_behind (suc n) [] h = refl
drop_behind (suc n) (b ∷ bytes) h = drop_behind n bytes (omega (arith, h))

-- The sort sees the records of the file, and leaves a file of those that it gives.
sort_bytes-file_of :
    (sort : List (Index ℕ) → Option (List (Index ℕ))) (idx : ℕ) (xs ys : List (Index ℕ))
    → AreWords xs
    → sort xs ≡ some ys
    → length ys ≡ length xs
    → sort_bytes sort (file_of idx xs) ≡ done (file_of idx ys)
unfolding sort_bytes
sort_bytes-file_of sort idx xs ys h e same =
    let n = length xs in
    let head : 16 ≡ length (header_bytes n idx) = omega (
      arith,
      length-append (bytes_of 8 n) (bytes_of 8 idx),
      length-bytes_of 8 n,
      length-bytes_of 8 idx,
    ) in
    let size : length (file_of idx xs) ≡ 16 + 16 * n =
      omega (arith, length-append (header_bytes n idx) (all_bytes xs), length-all_bytes xs, head) in
    let count : (16 + 16 * n - 16) / 16 ≡ n = omega arith in
    let front : take 16 (file_of idx xs) ≡ header_bytes n idx =
      take-append (header_bytes n idx) (all_bytes xs) 16 head in
    let back : drop 16 (file_of idx xs) ≡ all_bytes xs =
      drop-append (header_bytes n idx) (all_bytes xs) 16 head in
    let all : read_records n (all_bytes xs) ≡ some xs =
      ap (read_records n) (sym (append-nil (all_bytes xs))) ∙ read_records-all_bytes xs [] h in
    let behind : drop (16 + 16 * length ys) (file_of idx xs) ≡ [] =
      drop_behind (16 + 16 * length ys) (file_of idx xs) (omega (arith, size, same)) in
    rw (sort_bytes, size, count, back, all, e, front, behind, append-nil (all_bytes ys))
      (ap (λ k. done (header_bytes k idx ++ all_bytes ys)) (sym same))

create_index_file-file_of :
    (rand : ℕ → ℕ) (mark : ℕ → ℕ → ℕ) (idx n : ℕ)
    → n < 2 ^ 60
    → create_index_file rand mark (some idx) n ≡ done (file_of idx (random_records rand mark 0 n))
unfolding create_index_file
create_index_file-file_of rand mark idx n few =
    let room : ltb n (2 ^ 60) ≡ true = ground (arith, few) in
    rw (room) (
      ap (λ k. done (header_bytes k idx ++ all_bytes (random_records rand mark 0 n)))
        (sym (length-random_records rand mark 0 n)))

-- The created file is printed as it was made: with marks and a pointer of 64 bits, fewer than
-- 2 ^ 60 records, and memory for them, the reader prints their number and, for each of them, the
-- mark and the number that createIndexFile.c has given it.
pub read-create :
    (rand : ℕ → ℕ) (mark : ℕ → ℕ → ℕ) (idx block n : ℕ)
    → ((d h : ℕ) → IsWord (mark d h))
    → IsWord idx
    → n < 2 ^ 60
    → then_run (create_index_file rand mark (some idx) n) (read_binary_file (some block))
      ≡ done (n, random_records rand mark 0 n)
unfolding then_run
read-create rand mark idx block n hm hi few =
    let created = random_records rand mark 0 n in
    let count : length created ≡ n = length-random_records rand mark 0 n in
    let words_of = random_records-AreWords rand mark 0 n hm (omega (arith, few)) in
    ap (λ o. then_run o (read_binary_file (some block)))
      (create_index_file-file_of rand mark idx n few)
    ∙ read_binary_file-file_of created idx block words_of hi (omega (arith, count, few))
    ∙ ap (λ k. done (k, created)) count

module _ (rand : ℕ → ℕ) (mark : ℕ → ℕ → ℕ) (lt : ℕ → ℕ → Bool)
    (qsort : List (Index ℕ) → List (Index ℕ)) (threads j size memsize : ℕ) (order : ℕ → List ℕ)
    (orders : ℕ → ℕ → List ℕ) where
  -- A file that createIndexFile makes, sorted and printed, shows its number of records, and they
  -- are the created ones in the order of their marks: with marks and a pointer of 64 bits, memory
  -- for the records, ordered marks, a `qsort` that sorts, at least one thread, no more threads
  -- than the 2 ^ j blocks of a chunk of `memsize` records and than the 128 that the sorting program
  -- has room for, fair orders, 2 ^ k chunks in the file, fewer than 2 ^ 27 records, so that its
  -- offsets are `int`s, and fuel for as many chunks.
  pub pipeline-IsSorted :
      (fuel k n idx block : ℕ)
      → ((d h : ℕ) → IsWord (mark d h))
      → IsWord idx
      → IsOrder lt
      → IsQsort lt qsort
      → 0 < threads
      → threads ≤ 2 ^ j
      → threads ≤ 128
      → memsize ≡ 2 ^ j * size
      → ((first : ℕ) → IsFair threads (2 ^ j) (order first) (orders first))
      → 0 < memsize
      → memsize < 2 ^ 27
      → n ≡ 2 ^ k * memsize
      → n < 2 ^ 27
      → 2 ^ k ≤ fuel
      → (ys : List (Index ℕ)) × (then_run
            (then_run
              (create_index_file rand mark (some idx) n)
              (sort_bytes (sort_file lt qsort threads order orders fuel memsize (2 ^ j))))
            (read_binary_file (some block))
          ≡ done (n, ys))
        × IsSorted lt ys
        × Perm ys (random_records rand mark 0 n)
  unfolding create_index_file then_run
  pipeline-IsSorted fuel k n idx block hm hi o q pos enough room whole fair some_memory small e long
        fu =
      let created = random_records rand mark 0 n in
      let count : length created ≡ n = length-random_records rand mark 0 n in
      let (ys, ran, ascends, kept) =
        sort_file-IsSorted lt qsort threads j size memsize order orders o q pos enough room whole
          small fair fuel k created some_memory (count ∙ e) (omega (arith, count, long)) fu in
      let made : create_index_file rand mark (some idx) n ≡ done (file_of idx created) =
        create_index_file-file_of rand mark idx n (omega (arith, long)) in
      let words_of = random_records-AreWords rand mark 0 n hm (omega (arith, long)) in
      let same : length ys ≡ length created = perm-length kept in
      let sorted : sort_bytes (sort_file lt qsort threads order orders fuel memsize (2 ^ j))
            (file_of idx created)
          ≡ done (file_of idx ys) =
        sort_bytes-file_of _ idx created ys words_of ran same in
      let shown : read_binary_file (some block) (file_of idx ys) ≡ done (length ys, ys) =
        read_binary_file-file_of ys idx block (perm-AreWords kept words_of) hi
          (omega (arith, same, count, long)) in
      (ys, rw (made, then_run, sorted, then_run, shown, same, count) refl, ascends, kept)
