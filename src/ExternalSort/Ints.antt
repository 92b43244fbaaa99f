-- ===== src/ExternalSort/Ints.antt =====
-- The `int`s of Lab6/main.c: below 2 ^ 27 records, which are 2 ^ 31 bytes, no product overflows.
use osisp_labs.Common.{
  ℕ, zero, suc, ◌-◌, ◌*◌, ◌/◌, ◌^◌, ◌<◌, ◌≤◌, ◌≡◌, refl, Bool, true, ◌&&◌, inl, inr, some, List,
  arith, ltb, Bool-cases,
}
use native.Mathlib.Nat.{mul-le-mul_right, div-mul-le_self, div-le_self}
use osisp_labs.ExternalSort.{
  Index, in_int, round_fits, merge_pairs, merge_rounds, last_rounds, last_merge,
}
use osisp_labs.ExternalSort.Phases.{merged}

pub in_int_lem : (n m : ℕ) → n ≤ m → m < 2 ^ 27 → in_int n ≡ true
in_int_lem n m h k = ground arith

both : (a b : Bool) → a ≡ true → b ≡ true → (a && b) ≡ true
both a b h k = ground (arith, h, k)

pub round_fits_lem :
    (blocks size : ℕ) → ltb 1 blocks ≡ true → blocks * size < 2 ^ 27 → round_fits blocks size ≡ true
round_fits_lem blocks size more few =
    let two : 2 ≤ blocks = ground (arith, more) in
    let less : blocks / 2 * 2 - 1 ≤ blocks = omega arith in
    both (in_int ((blocks / 2 * 2 - 1) * size)) (in_int (size * 2))
      (in_int_lem ((blocks / 2 * 2 - 1) * size) (blocks * size) (mul-le-mul_right size less) few)
      (in_int_lem (size * 2) (blocks * size) (omega (arith, mul-le-mul_right size two)) few)

pub half_small : (blocks size : ℕ) → blocks * size < 2 ^ 27 → blocks / 2 * (size * 2) < 2 ^ 27
half_small blocks size few =
    let less : blocks / 2 * 2 ≤ blocks = omega arith in
    let same : blocks / 2 * (size * 2) ≡ blocks / 2 * 2 * size = grind arith in
    omega (arith, same, mul-le-mul_right size less)

module _ {Mark : Type 0} (lt : Mark → Mark → Bool) where
  last_rounds_lem :
      (fuel : ℕ) (a : List (Index Mark)) (blocks size : ℕ)
      → blocks * size < 2 ^ 27
      → last_rounds lt fuel a blocks size ≡ some (merge_rounds lt fuel a blocks size)
  unfolding last_rounds merge_rounds
  last_rounds_lem zero a blocks size few = refl
  last_rounds_lem (suc fuel) a blocks size few = elim (Bool-cases (ltb 1 blocks)) [
    | inr one ↦ rw one refl
    | inl more ↦
        rw (more, round_fits_lem blocks size more few)
          (last_rounds_lem fuel (merge_pairs lt size a 0 (blocks / 2)) (blocks / 2) (size * 2)
            (half_small blocks size few))
  ]

  -- A file of fewer than 2 ^ 27 records, and a chunk of no more.
  pub last_merge_lem :
      (a : List (Index Mark)) (records memsize : ℕ)
      → records < 2 ^ 27
      → memsize ≤ records
      → last_merge lt a records memsize ≡ some (merged lt a records memsize)
  unfolding last_merge
  last_merge_lem a records memsize few inside =
      let chunks : ltb (records / memsize) (2 ^ 31) ≡ true =
        ground (arith, div-le_self records memsize, few) in
      rw
        (both (in_int memsize) (ltb (records / memsize) (2 ^ 31))
          (in_int_lem memsize records inside few) chunks)
        (last_rounds_lem (records / memsize) a (records / memsize) memsize
          (omega (arith, few, div-mul-le_self records memsize)))
