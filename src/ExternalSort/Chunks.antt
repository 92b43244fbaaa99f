-- ===== src/ExternalSort/Chunks.antt =====
-- `main` of Lab6/main.c: the checks of its arguments, which are not negative here, and the loop
-- over the chunks of the file. What the threads do to the chunk at a record is a parameter.
mod Tests
use osisp_labs.Common.{
  ℕ, zero, suc, ◌+◌, ◌-◌, ◌*◌, ◌/◌, ◌%◌, ◌^◌, ◌≤◌, ◌<◌, ◌≡◌, ◌≢◌, refl, ap, ◌∙◌, subst, Bool, true,
  false, Option, none, some, arith, ltb, ◌==◌, if◌then◌else◌, not, ◌||◌, inl, inr, Bool-cases,
}
use native.Mathlib.Nat.{mul-mod_left, mod-add-div, div-le_self}

-- `sizeof(index_s)` and `sizeof(index_hdr_s)`, on a machine with pointers of 8 bytes
abbrev pub index_size : ℕ
index_size = 16

-- `filesize - sizeof(index_hdr_s)`, an unsigned number of 64 bits
abbrev pub data_size : ℕ → ℕ
data_size filesize = (filesize + 2 ^ 64 - 16) % 2 ^ 64

-- The checks of `main`, and the number of blocks of a chunk and their size in bytes, an `int` of 32
-- bits. `none`: the program exits, or divides by zero.
unfoldable pub check_arguments : ℕ → ℕ → ℕ → Option (ℕ × ℕ)
check_arguments memsize block_num filesize =
    let block_size = memsize / block_num * index_size % 2 ^ 32 in
    if ltb (data_size filesize) (memsize * index_size % 2 ^ 64) || block_num == 0
    then none
    else if not (memsize % block_num == 0)
    then none
    else if not (block_size % index_size == 0)
    then none
    else some (block_num, block_size)

module _ {A : Type 0} (sort_chunk : ℕ → A → A) (memsize records : ℕ) where
  -- The `do … while (countSortIndex != …)` from a count on. `none`: not done after so many rounds.
  unfoldable pub chunk_loop : ℕ → ℕ → A → Option A
  chunk_loop zero count file = none
  chunk_loop (suc fuel) count file =
      let rest = chunk_loop fuel (count + memsize) (sort_chunk count file) in
      if count + memsize == records then some (sort_chunk count file) else rest

  -- The chunks of the file one after the other.
  abbrev pub sort_chunks : ℕ → ℕ → A → A
  sort_chunks zero count file = file
  sort_chunks (suc k) count file = sort_chunks k (count + memsize) (sort_chunk count file)

  ends_from :
      (k fuel count : ℕ) (file : A)
      → 0 < memsize
      → records ≡ count + (suc k) * memsize
      → k < fuel
      → chunk_loop fuel count file ≡ some (sort_chunks (suc k) count file)
  unfolding chunk_loop
  ends_from k zero count file pos e h = absurd (omega arith)
  ends_from zero (suc fuel) count file pos e h =
      let last : (count + memsize == records) ≡ true = ground arith in rw (last) refl
  ends_from (suc k) (suc fuel) count file pos e h =
      let more : (count + memsize == records) ≡ false = grind arith in
      rw (more)
        (ends_from k fuel (count + memsize) (sort_chunk count file) pos (grind arith) (omega arith))

  -- When the chunks, one at least, fill the file without a rest, the loop ends after one round
  -- for each of them and has treated each once, in order.
  pub chunk_loop_ends :
      (k fuel : ℕ) (file : A)
      → 0 < memsize
      → records ≡ suc k * memsize
      → k < fuel
      → chunk_loop fuel 0 file ≡ some (sort_chunks (suc k) 0 file)
  chunk_loop_ends k fuel file pos e h = ends_from k fuel 0 file pos (omega (arith, e)) h

  no_multiple : (j : ℕ) → records % memsize ≢ 0 → (j * memsize + memsize == records) ≡ false
  no_multiple j ne = elim (Bool-cases (j * memsize + memsize == records)) [
    | inl same ↦
        let e : records ≡ suc j * memsize = grind arith in
        absurd (ne (ap (λ r. r % memsize) e ∙ mul-mod_left (suc j) memsize))
    | inr other ↦ other
  ]

  never_from :
      (fuel j : ℕ) (file : A) → records % memsize ≢ 0 → chunk_loop fuel (j * memsize) file ≡ none
  unfolding chunk_loop
  never_from zero j file ne = refl
  never_from (suc fuel) j file ne =
      let more : (j * memsize + memsize == records) ≡ false = no_multiple j ne in
      rw (more) (
        ap (λ c. chunk_loop fuel c (sort_chunk (j * memsize) file)) (grind arith)
        ∙ never_from fuel (suc j) (sort_chunk (j * memsize) file) ne)

  -- When the chunks do not fill the file without a rest, no number of rounds ends the loop.
  pub chunk_loop_never_ends :
      (fuel : ℕ) (file : A) → records % memsize ≢ 0 → chunk_loop fuel 0 file ≡ none
  chunk_loop_never_ends fuel file ne =
      ap (λ c. chunk_loop fuel c file) (omega arith) ∙ never_from fuel 0 file ne

-- Blocks without a rest, in the file.
abbrev Tiles : ℕ → ℕ → Option (ℕ × ℕ) → Type 0
Tiles memsize filesize none = Unit
Tiles memsize filesize (some (blocks, block_size)) =
    (blocks * block_size ≡ memsize * index_size) × (memsize * index_size + 16 ≤ filesize)

neither : (a b : Bool) → a || b ≡ false → (a ≡ false) × (b ≡ false)
neither true b e = absurd (cc)
neither false b e = (refl, e)

check-Tiles :
    (memsize block_num filesize : ℕ)
    → 16 ≤ filesize
    → filesize < 2 ^ 63
    → memsize < 2 ^ 27
    → Tiles memsize filesize (check_arguments memsize block_num filesize)
unfolding check_arguments
check-Tiles memsize block_num filesize whole long small =
    elim (Bool-cases (ltb (data_size filesize) (memsize * index_size % 2 ^ 64) || block_num == 0)) [
      | inl bad ↦ rw (bad) tt
      | inr good ↦ elim (Bool-cases (memsize % block_num == 0)) [
        | inr rest ↦ rw (good, rest) tt
        | inl even ↦
            let l : memsize / block_num ≤ memsize = div-le_self memsize block_num in
            let zero_rest : memsize % block_num ≡ 0 = ground arith in
            let product : block_num * (memsize / block_num) ≡ memsize =
              omega (arith, mod-add-div memsize block_num) in
            let room : memsize * index_size % 2 ^ 64 ≤ data_size filesize = ground (
              arith,
              neither (ltb (data_size filesize) (memsize * index_size % 2 ^ 64)) (block_num == 0)
                  good,
            ) in
            let fits : memsize / block_num * index_size % 2 ^ 32
                ≡ memsize / block_num * index_size =
              omega arith in
            let d : (memsize / block_num * index_size % 2 ^ 32 % index_size == 0) ≡ true =
              ground arith in
            rw (good, even, d)
              (ap (◌*◌ block_num) fits ∙ grind (arith, product), omega (arith, room))
      ]
    ]

-- Arguments that pass the checks, with fewer than 2 ^ 27 records in a chunk and a file with a
-- whole header and less than 2 ^ 63 bytes, cut a chunk into blocks without a rest, and the first
-- chunk is inside the file.
pub check_arguments_tile :
    (memsize block_num filesize blocks block_size : ℕ)
    → check_arguments memsize block_num filesize ≡ some (blocks, block_size)
    → 16 ≤ filesize
    → filesize < 2 ^ 63
    → memsize < 2 ^ 27
    → (blocks * block_size ≡ memsize * index_size) × (memsize * index_size + 16 ≤ filesize)
check_arguments_tile memsize block_num filesize blocks block_size e whole long small =
    subst (Tiles memsize filesize) e (check-Tiles memsize block_num filesize whole long small)

-- A file of less than 16 bytes passes the checks with every chunk of fewer than 2 ^ 27 records
-- that the blocks divide, since the size of its data wraps around.
pub check_arguments_short :
    (memsize block_num filesize : ℕ)
    → filesize < 16
    → memsize < 2 ^ 27
    → 0 < block_num
    → memsize % block_num ≡ 0
    → check_arguments memsize block_num filesize
      ≡ some (block_num, memsize / block_num * index_size)
unfolding check_arguments
check_arguments_short memsize block_num filesize short small pos even =
    let a : ltb (data_size filesize) (memsize * index_size % 2 ^ 64) ≡ false = ground arith in
    let b : (block_num == 0) ≡ false = ground arith in
    let c : (memsize % block_num == 0) ≡ true = ground arith in
    let l : memsize / block_num ≤ memsize = div-le_self memsize block_num in
    let d : (memsize / block_num * index_size % 2 ^ 32 % index_size == 0) ≡ true = ground arith in
    rw (a, b, c, d) (ap (λ z. some (block_num, z)) (omega arith))
