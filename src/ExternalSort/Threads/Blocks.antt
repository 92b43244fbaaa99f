-- ===== src/ExternalSort/Threads/Blocks.antt =====
-- The search of Lab6/main.c for a free block, and the length of a permuted list.
use mathlib.Core.List.{Perm, Permᴰ}
use mathlib.Core.Logic.{∥∥₁_elim}
use native.Mathlib.Nat.{ℕ_set}
use osisp_labs.Common.{
  ℕ, zero, suc, ◌+◌, ◌<◌, ◌≡◌, ◌≢◌, inl, inr, refl, ap, ◌∙◌, List, [], ◌∷◌, none, some, arith,
  length, get_or, ◌==◌, Bool-cases,
}
use osisp_labs.ExternalSort.{find_next_free_block}

-- `find_next_free_block` returns a free block.
pub find_next_free_block_free :
    (block_map : List ℕ) (i : ℕ) {b : ℕ}
    → find_next_free_block block_map i ≡ some b
    → (k : ℕ) × (b ≡ i + k) × (k < length block_map) × (get_or block_map k 1 ≡ 0)
unfolding find_next_free_block
find_next_free_block_free [] i e = absurd (ground arith)
find_next_free_block_free (entry ∷ block_map) i {b} e = elim (Bool-cases (entry == 0)) [
  | inl free ↦ (0, ground arith, omega arith, ground arith)
  | inr taken ↦
      let (k, e', h, z) = find_next_free_block_free block_map (i + 1) {b = b} (ground arith) in
      (suc k, omega arith, omega arith, z)
]

-- It returns -1 only if no block is free.
pub find_next_free_block-none :
    (block_map : List ℕ) (i k : ℕ)
    → find_next_free_block block_map i ≡ none
    → k < length block_map
    → get_or block_map k 1 ≢ 0
unfolding find_next_free_block
find_next_free_block-none [] i k e h = absurd (omega arith)
find_next_free_block-none (entry ∷ block_map) i zero e h = ground arith
find_next_free_block-none (entry ∷ block_map) i (suc k) e h =
    ground (arith, find_next_free_block-none block_map (i + 1) k)

-- Lengths survive a rearrangement.
perm_d-length {ℓ} : {A : Type ℓ} {xs ys : List A} → Permᴰ xs ys → length xs ≡ length ys
perm_d-length Permᴰ.nil = refl
perm_d-length (Permᴰ.cons e p) = ap suc (perm_d-length p)
perm_d-length (Permᴰ.swap e f) = refl
perm_d-length (Permᴰ.trans p r) = perm_d-length p ∙ perm_d-length r

pub perm-length {ℓ} : {A : Type ℓ} {xs ys : List A} → Perm xs ys → length xs ≡ length ys
perm-length h = ∥∥₁_elim h (ℕ_set _ _) perm_d-length
