-- ===== src/ExternalSort/Main/Sorts.antt =====
-- The whole of Lab6/main.c: the file is sorted.
use mathlib.Core.List.{Perm}
use mathlib.Core.List.Perm
use mathlib.Core.Option
use native.Mathlib.Decide.{ℕ_discrete}
use native.Mathlib.Nat.{mul-div_cancel_left, mul-mod_right}
use osisp_labs.ExternalSort.Ints.{last_merge_lem}
use osisp_labs.Common.{
  ◌>>=◌, ℕ, zero, suc, ◌+◌, ◌-◌, ◌*◌, ◌/◌, ◌%◌, ◌^◌, ◌≤◌, ◌<◌, ◌≡◌, ◌≢◌, refl, ap, ap₂, ◌∙◌, sym,
  subst, Bool, true, false, Bool-cases, inl, inr, Option, some, List, arith, length, ◌==◌, ltb,
  drop, take,
}
use osisp_labs.ExternalSort.{Index, slice, splice}
use osisp_labs.ExternalSort.Order.{IsOrder, IsQsort, IsSorted}
use osisp_labs.ExternalSort.Rounds.{HasSortedBlocks, take_all}
use osisp_labs.ExternalSort.Slices.{
  HasSortedBlocks-slices, slice-splice_self, slice-splice_ne, splice-perm, length-slice,
}
use osisp_labs.ExternalSort.Phases.{pow_pos, merged, merged-IsSorted, merged-perm}
use osisp_labs.ExternalSort.Threads.Blocks.{perm-length}
use osisp_labs.ExternalSort.Chunks.{
  index_size, data_size, check_arguments, chunk_loop, sort_chunks, chunk_loop_ends,
}
use osisp_labs.ExternalSort.Main.{sort_chunk, joint, finish, sort_checked, sort_file}
use osisp_labs.ExternalSort.Main.Chunk.{IsFair, sort_threads-IsSorted}

within : (c n len m : ℕ) → (c + suc n) * m ≤ len → c * m + m ≤ len
within c n len m h = grind arith

rest_within : (c n len len' m : ℕ) → (c + suc n) * m ≤ len → len' ≡ len → (c + 1 + n) * m ≤ len'
rest_within c n len len' m h e = grind arith

next_start : (c m : ℕ) → c * m + m ≡ (c + 1) * m
next_start c m = grind arith

-- The checks of the arguments let a file of whole chunks pass.
check_passes :
    (memsize blocks size n : ℕ)
    → 0 < blocks
    → memsize ≡ blocks * size
    → memsize ≤ n
    → memsize < 2 ^ 27
    → n < 2 ^ 58
    → check_arguments memsize blocks (16 + n * index_size) ≡ some (blocks, size * index_size)
unfolding check_arguments
check_passes memsize blocks size n pos whole fits small long =
    let per_block : memsize / blocks ≡ size =
      ap (λ m. m / blocks) whole ∙ mul-div_cancel_left size pos in
    let few : size ≤ memsize = grind arith in
    let room : ltb (data_size (16 + n * index_size)) (memsize * index_size % 2 ^ 64) ≡ false =
      ground arith in
    let some_blocks : (blocks == 0) ≡ false = ground arith in
    let even : (memsize % blocks == 0) ≡ true =
      ground (arith, ap (λ m. m % blocks) whole ∙ mul-mod_right blocks size) in
    let bytes : memsize / blocks * index_size % 2 ^ 32 ≡ size * index_size =
      omega (arith, per_block) in
    let tidy : (size * index_size % index_size == 0) ≡ true = ground arith in
    rw (room, some_blocks, even, bytes, tidy) refl

chunk_in_file : (n k m : ℕ) → 0 < k → n ≡ k * m → m ≤ n
chunk_in_file n k m h e = grind arith

head_ascends :
    {Mark : Type 0} (lt : Mark → Mark → Bool) (size n : ℕ) (a : List (Index Mark))
    → 0 < n
    → HasSortedBlocks lt size n a
    → IsSorted lt (take size a)
head_ascends lt size zero a h blocks = absurd (omega arith)
head_ascends lt size (suc n) a h blocks = blocks.1

module _ {Mark : Type 0} (lt : Mark → Mark → Bool) (qsort : List (Index Mark) → List (Index Mark))
    (threads j size memsize : ℕ) (order : ℕ → List ℕ) (orders : ℕ → ℕ → List ℕ) (o : IsOrder lt)
    (q : IsQsort lt qsort) (pos : 0 < threads) (enough : threads ≤ 2 ^ j) (room : threads ≤ 128)
    (whole : memsize ≡ 2 ^ j * size) (few : memsize < 2 ^ 27)
    (fair : (first : ℕ) → IsFair threads (2 ^ j) (order first) (orders first)) where
  abbrev step : ℕ → Option (List (Index Mark)) → Option (List (Index Mark))
  step = sort_chunk lt qsort threads order orders memsize (2 ^ j) size

  -- One chunk: it ascends then, and the others stay.
  one_chunk :
      (c : ℕ) (file : List (Index Mark))
      → c * memsize + memsize ≤ length file
      → (file' : List (Index Mark)) × (step (c * memsize) (some file) ≡ some file')
        × IsSorted lt (slice file' (c * memsize) memsize)
        × ((b : ℕ) → c ≢ b → slice file' (b * memsize) memsize ≡ slice file (b * memsize) memsize)
        × Perm file' file
  unfolding sort_chunk
  one_chunk c file fits =
      let chunk = slice file (c * memsize) memsize in
      let n : length chunk ≡ memsize = length-slice (c * memsize) memsize file fits in
      let (sorted, e, ascends, same) =
        sort_threads-IsSorted lt o q threads j size (order (c * memsize)) (orders (c * memsize))
          chunk pos enough room (n ∙ whole) (omega (arith, few, whole)) (fair (c * memsize)) in
      let n' : length sorted ≡ memsize = perm-length same ∙ n in
      (
        splice file (c * memsize) memsize sorted,
        ap (Option.map (splice file (c * memsize) memsize)) e,
        subst (IsSorted lt) (sym (slice-splice_self (c * memsize) memsize file sorted fits n'))
            ascends,
        (λ b ne. slice-splice_ne c b memsize file sorted ne fits n'),
        splice-perm (c * memsize) memsize file sorted same,
      )

  chunks_from :
      (records n c : ℕ) (file : List (Index Mark))
      → (c + n) * memsize ≤ length file
      → ((b : ℕ) → b < c → IsSorted lt (slice file (b * memsize) memsize))
      → (file' : List (Index Mark)) × (sort_chunks step memsize records n (c * memsize) (some file)
          ≡ some file')
        × ((b : ℕ) → b < c + n → IsSorted lt (slice file' (b * memsize) memsize))
        × Perm file' file
  chunks_from records zero c file fits done =
      (file, refl, (λ b h. done b (omega arith)), Perm.refl file)
  chunks_from records (suc n) c file fits done =
      let (next, e, ascends, other, kept) =
        one_chunk c file (within c n (length file) memsize fits) in
      let done' : (b : ℕ) → b < c + 1 → IsSorted lt (slice next (b * memsize) memsize) = λ b h.
        elim (ℕ_discrete c b) [
          | yes same ↦ subst (λ k. IsSorted lt (slice next (k * memsize) memsize)) same ascends
          | no ne ↦ subst (IsSorted lt) (sym (other b ne)) (done b (omega arith))
        ] in
      let (file', e', all, kept') =
        chunks_from records n (c + 1) next
          (rest_within c n (length file) (length next) memsize fits (perm-length kept)) done' in
      (
        file',
        ap (sort_chunks step memsize records n (c * memsize + memsize)) e
            ∙ ap (λ k. sort_chunks step memsize records n k (some next)) (next_start c memsize)
            ∙ e',
        (λ b h. all b (omega arith)),
        Perm.trans kept' kept,
      )

  -- All chunks, one after the other.
  all_chunks :
      (records n : ℕ) (file : List (Index Mark))
      → n * memsize ≤ length file
      → (file' : List (Index Mark)) × (sort_chunks step memsize records n 0 (some file)
          ≡ some file')
        × HasSortedBlocks lt memsize n file'
        × Perm file' file
  all_chunks records n file fits =
      let (file', e, all, kept) =
        chunks_from records n 0 file (omega arith) (λ b h. absurd (omega arith)) in
      (
        file',
        ap (λ k. sort_chunks step memsize records n k (some file)) none_before ∙ e,
        subst (HasSortedBlocks lt memsize n) (ap (λ k. drop k file') (sym none_before)) (
            HasSortedBlocks-slices lt memsize n 0 file' (omega (arith, perm-length kept))
              (λ b _ h. all b (omega arith))),
        kept,
      )
    where
      none_before : 0 ≡ 0 * memsize
      none_before = omega arith

  -- The end of `main`: nothing is left to merge for one chunk.
  finish-IsSorted :
      (k : ℕ) (file : List (Index Mark))
      → 0 < memsize
      → length file ≡ 2 ^ k * memsize
      → length file < 2 ^ 27
      → HasSortedBlocks lt memsize (2 ^ k) file
      → (file' : List (Index Mark)) × (finish lt memsize (16 + length file * index_size) file
          ≡ some file')
        × IsSorted lt file'
        × Perm file' file
  finish-IsSorted k file some_memory e small blocks =
      let n : data_size (16 + length file * index_size) / index_size ≡ length file = omega arith in
      elim (Bool-cases (memsize * index_size == data_size (16 + length file * index_size))) [
        | inl one ↦
            let all : memsize ≡ length file = ground (arith, n) in
            (
              file,
              rw one refl,
              subst (IsSorted lt) (take_all file memsize all)
                  (head_ascends lt memsize (2 ^ k) file (pow_pos k) blocks),
              Perm.refl file,
            )
        | inr more ↦ (
          merged lt file (length file) memsize,
          rw (more, n)
              (last_merge_lem lt file (length file) memsize small
                (chunk_in_file (length file) (2 ^ k) memsize (pow_pos k) e)),
          merged-IsSorted lt o file k memsize some_memory e blocks,
          merged-perm lt file memsize,
        )
      ]

  -- With ordered marks, a `qsort` that sorts, at least one thread and no more threads than the
  -- 2 ^ j blocks of a chunk of `memsize` records and than the 128 that the arrays of `main` have room
  -- for, and fair orders: a file of 2 ^ k chunks, fewer than 2 ^ 27 records, so that its offsets are
  -- `int`s, is sorted, and keeps its records, after at most 2 ^ k rounds of the loop over the chunks.
  pub sort_file-IsSorted :
      (fuel k : ℕ) (file : List (Index Mark))
      → 0 < memsize
      → length file ≡ 2 ^ k * memsize
      → length file < 2 ^ 27
      → 2 ^ k ≤ fuel
      → (file' : List (Index Mark)) × (sort_file lt qsort threads order orders fuel memsize
            (2 ^ j)
            file
          ≡ some file')
        × IsSorted lt file'
        × Perm file' file
  unfolding sort_file sort_checked
  sort_file-IsSorted fuel k file some_memory e long enough_fuel =
      let n = length file in
      let chunks : suc (2 ^ k - 1) ≡ 2 ^ k = omega (arith, pow_pos k) in
      let (file1, ran, blocks, kept) = all_chunks n (2 ^ k) file (omega (arith, e)) in
      let n1 : length file1 ≡ n = perm-length kept in
      let (file2, finished, ascends, kept') =
        finish-IsSorted k file1 some_memory (n1 ∙ e) (omega (arith, n1)) blocks in
      let bytes : size * index_size / index_size ≡ size = omega arith in
      let records : data_size (16 + n * index_size) / index_size ≡ n = omega arith in
      let loops : chunk_loop step memsize n fuel 0 (some file) ≡ some (some file1) =
        chunk_loop_ends step memsize n (2 ^ k - 1) fuel (some file) some_memory
          (e ∙ ap (λ c. c * memsize) (sym chunks)) (omega (arith, chunks))
        ∙ ap some (ap (λ c. sort_chunks step memsize n c 0 (some file)) chunks ∙ ran) in
      (
        file2,
        ap (sort_checked lt qsort threads order orders fuel memsize (16 + n * index_size) file) (
              check_passes memsize (2 ^ j) size n (pow_pos j) whole
                (chunk_in_file n (2 ^ k) memsize (pow_pos k) e) few (omega (arith, long)))
            ∙ ap₂
                (λ z r.
                  joint (
                    chunk_loop (sort_chunk lt qsort threads order orders memsize (2 ^ j) z) memsize
                      r fuel 0 (some file))
                  >>= finish lt memsize (16 + n * index_size))
                bytes records
            ∙ ap (λ f. joint f >>= finish lt memsize (16 + n * index_size)) loops
            ∙ ap (λ m. finish lt memsize (16 + m * index_size) file1) (sym n1)
            ∙ finished,
        ascends,
        Perm.trans kept' kept,
      )
