-- ===== src/ExternalSort/Threads/Invariant.antt =====
-- What holds between two moves of the sorting threads of Lab6/main.c.
use mathlib.Core.List.{Perm}
use mathlib.Core.List.Perm
use osisp_labs.Common.{
  ℕ, ◌+◌, ◌*◌, ◌^◌, ◌≤◌, ◌<◌, ◌≡◌, ◌≢◌, ◌⊎◌, inl, inr, ap, ◌∙◌, sym, subst, Bool, List, none, some,
  arith, length, length-set, get_or, get_or-set_self, get_or-set_ne, set, Option-cases,
}
use native.Mathlib.Nat.{mul-le-mul_right}
use native.Mathlib.Decide.{ℕ_discrete}
use osisp_labs.ExternalSort.{Index, slice, splice, find_next_free_block}
use osisp_labs.ExternalSort.Order.{IsSorted, IsQsort}
use osisp_labs.ExternalSort.Slices.{
  slice-splice_self, slice-splice_ne, length-splice, length-slice, splice-perm,
}
use osisp_labs.ExternalSort.Threads.{
  sorting, claiming, at_barrier, overflowed, update, State, claim, move,
}
use osisp_labs.ExternalSort.Ints.{in_int_lem}
use osisp_labs.ExternalSort.Threads.Blocks.{
  find_next_free_block_free, find_next_free_block-none, perm-length,
}

module _ {Mark : Type 0} (lt : Mark → Mark → Bool) (size threads block_num : ℕ)
    (given : List (Index Mark)) where
  -- A block of the array ascends.
  abbrev pub IsDone : State (Index Mark) → ℕ → Type 0
  IsDone s b = IsSorted lt (slice s.records (b * size) size)

  pub record Inv (s : State (Index Mark)) : Type 0 where
    pub map_length : length s.block_map ≡ block_num
    pub record_count : length s.records ≡ length given
    pub fits : block_num * size ≤ length given
    pub few : block_num * size < 2 ^ 27
    -- nothing has overflowed
    pub defined : (i : ℕ) → i < threads → s.pc i ≢ overflowed
    -- who sorts a block has marked it
    pub owned :
        (i b : ℕ)
        → i < threads
        → s.pc i ≡ sorting b
        → (b < block_num) × (get_or s.block_map b 1 ≢ 0)
    -- no two threads sort the same block
    pub apart :
        (i j b : ℕ) → i < threads → j < threads → s.pc i ≡ sorting b → s.pc j ≡ sorting b → i ≡ j
    -- a marked block ascends, or a thread is about to sort it
    pub marked :
        (b : ℕ)
        → b < block_num
        → get_or s.block_map b 1 ≢ 0
        → IsDone s b ⊎ ((i : ℕ) × (i < threads) × (s.pc i ≡ sorting b))
    -- who waits for the merge has seen every block marked
    pub all_marked :
        (i : ℕ)
        → i < threads
        → s.pc i ≡ at_barrier
        → (b : ℕ) → b < block_num
        → get_or s.block_map b 1 ≢ 0
    pub kept : Perm s.records given

  length-qsort :
      (qsort : List (Index Mark) → List (Index Mark))
      → IsQsort lt qsort
      → (a : List (Index Mark)) → length (qsort a) ≡ length a
  length-qsort qsort q a = perm-length (q.perm a)

  block_fits :
      {s : State (Index Mark)}
      → Inv s
      → (b : ℕ) → b < block_num
      → b * size + size ≤ length s.records
  block_fits {s} v b h = grind (arith, v.fits, v.record_count)

  module _ {qsort : List (Index Mark) → List (Index Mark)} (q : IsQsort lt qsort)
      {s : State (Index Mark)} (v : Inv s) where
    module _ (b : ℕ) (inside : b < block_num) where
      abbrev sorted_block : List (Index Mark)
      sorted_block = qsort (slice s.records (b * size) size)

      abbrev written : List (Index Mark)
      written = splice s.records (b * size) size sorted_block

      length-sorted_block : length sorted_block ≡ size
      length-sorted_block =
          length-qsort qsort q (slice s.records (b * size) size)
          ∙ length-slice (b * size) size s.records (block_fits v b inside)

      -- The block that was sorted ascends; the others are as before.
      written_block : (c : ℕ) → (c ≡ b) ⊎ IsDone s c → IsSorted lt (slice written (c * size) size)
      written_block c h = elim (ℕ_discrete b c) [
        | yes e ↦
            subst (λ k. IsSorted lt (slice written (k * size) size)) e
              (subst (IsSorted lt)
                (sym (
                  slice-splice_self (b * size) size s.records sorted_block (block_fits v b inside)
                    length-sorted_block))
                (q.sorted (slice s.records (b * size) size)))
        | no ne ↦ elim h [
          | inl e ↦ absurd (ne (sym e))
          | inr old ↦
              subst (IsSorted lt)
                (sym (
                  slice-splice_ne b c size s.records sorted_block ne (block_fits v b inside)
                    length-sorted_block))
                old
        ]
      ]

    -- A claimed block in the map: it is marked, and all else is as before.
    module _ (b : ℕ) (inside : b < block_num) where
      abbrev claimed : List ℕ
      claimed = set s.block_map b 1

      claimed_self : get_or claimed b 1 ≢ 0
      claimed_self h =
          absurd (omega (arith, get_or-set_self s.block_map b 1 1 (omega (arith, v.map_length))))

      claimed_ne : (c : ℕ) → b ≢ c → get_or claimed c 1 ≡ get_or s.block_map c 1
      claimed_ne c ne = get_or-set_ne s.block_map b c 1 1 ne

      claimed_kept : (c : ℕ) → get_or s.block_map c 1 ≢ 0 → get_or claimed c 1 ≢ 0
      claimed_kept c h z = elim (ℕ_discrete b c) [
        | yes e ↦ claimed_self (subst (λ n. get_or claimed n 1 ≡ 0) (sym e) z)
        | no ne ↦ h (sym (claimed_ne c ne) ∙ z)
      ]

      module _ (i : ℕ) (here : i < threads) (idle : s.pc i ≡ claiming)
          (was_free : get_or s.block_map b 1 ≡ 0) where
        new_pc :
            (j c : ℕ)
            → update s.pc i (sorting b) j ≡ sorting c
            → ((i ≡ j) × (b ≡ c)) ⊎ ((i ≢ j) × (s.pc j ≡ sorting c))
        new_pc j c e = elim (ℕ_discrete i j) [
          | yes same ↦ inl (same, ground arith)
          | no other ↦ inr (other, ground arith)
        ]

        -- No thread sorts a block that was free.
        unowned : (j : ℕ) → j < threads → s.pc j ≡ sorting b → ⊥
        unowned j hj ej = (v.owned j b hj ej).1 was_free

        claim_free-Inv : Inv (claim (some b) i s)
        unfolding claim
        claim_free-Inv = record {
          map_length = length-set s.block_map b 1 ∙ v.map_length;
          record_count = v.record_count;
          fits = v.fits;
          few = v.few;
          defined = λ j hj e. v.defined j hj (ground arith);
          owned = λ j c hj ej. elim (new_pc j c ej) [
            | inl (same, e) ↦ (
              subst (λ n. n < block_num) e inside,
              subst (λ n. get_or claimed n 1 ≢ 0) e claimed_self,
            )
            | inr (other, old) ↦ ((v.owned j c hj old).0, claimed_kept c (v.owned j c hj old).1)
          ];
          apart = λ j k c hj hk ej ek. elim (new_pc j c ej) [
            | inl (same, e) ↦ elim (new_pc k c ek) [
              | inl (same', e') ↦ sym same ∙ same'
              | inr (other', old') ↦ absurd (unowned k hk (old' ∙ ap sorting (sym e)))
            ]
            | inr (other, old) ↦ elim (new_pc k c ek) [
              | inl (same', e') ↦ absurd (unowned j hj (old ∙ ap sorting (sym e')))
              | inr (other', old') ↦ v.apart j k c hj hk old old'
            ]
          ];
          marked = λ c hc m. elim (ℕ_discrete b c) [
            | yes e ↦ inr (i, here, ground arith)
            | no ne ↦ elim (v.marked c hc (λ z. m (claimed_ne c ne ∙ z))) [
              | inl old ↦ inl old
              | inr (j, hj, ej) ↦ elim (ℕ_discrete i j) [
                | yes same ↦ absurd (ground arith)
                | no other ↦ inr (j, hj, ground arith)
              ]
            ]
          ];
          all_marked = λ j hj ej c hc. claimed_kept c (v.all_marked j hj (ground arith) c hc);
          kept = v.kept;
        }

    module _ (i : ℕ) (here : i < threads) where
      -- A thread that sorts its block keeps the invariant.
      pub sort-Inv : (b : ℕ) → s.pc i ≡ sorting b → Inv (move qsort size (sorting b) i s)
      unfolding move
      sort-Inv b e =
          rw
            (
              in_int_lem (b * size) (block_num * size) below v.few,
              in_int_lem size (block_num * size) own v.few,
            )
            (record {
              map_length = v.map_length;
              record_count =
                  length-splice (b * size) size s.records (sorted_block b inside)
                    (block_fits v b inside) (length-sorted_block b inside)
                  ∙ v.record_count;
              fits = v.fits;
              few = v.few;
              defined = λ j hj e. v.defined j hj (ground arith);
              owned = λ j c hj ej. v.owned j c hj (ground arith);
              apart = λ j k c hj hk ej ek. v.apart j k c hj hk (ground arith) (ground arith);
              marked = λ c hc m. elim (v.marked c hc m) [
                | inl old ↦ inl (written_block b inside c (inr old))
                | inr (j, hj, ej) ↦ elim (ℕ_discrete i j) [
                  | yes same ↦ inl (written_block b inside c (inl (ground arith)))
                  | no other ↦ inr (j, hj, ground arith)
                ]
              ];
              all_marked = λ j hj ej c hc. v.all_marked j hj (ground arith) c hc;
              kept =
                  Perm.trans
                    (splice-perm (b * size) size s.records (sorted_block b inside) (q.perm _))
                    v.kept;
            })
        where
          inside : b < block_num
          inside = (v.owned i b here e).0

          own : size ≤ block_num * size
          own = omega (arith, mul-le-mul_right {m = 1} {n = block_num} size (omega (arith, inside)))

          below : b * size ≤ block_num * size
          below = mul-le-mul_right size (omega (arith, inside))

      -- A thread that visits the map keeps the invariant.
      pub claim-Inv : s.pc i ≡ claiming → Inv (move qsort size claiming i s)
      unfolding move
      claim-Inv e = elim (Option-cases (find_next_free_block s.block_map 0)) [
        | inl full ↦ rw full (none_free full)
        | inr (b, found) ↦ rw found (one_free b found)
      ]
        where
          none_free : find_next_free_block s.block_map 0 ≡ none → Inv (claim none i s)
          none_free full = record {
            map_length = v.map_length;
            record_count = v.record_count;
            fits = v.fits;
            few = v.few;
            defined = λ j hj e. v.defined j hj (ground arith);
            owned = λ j c hj ej. v.owned j c hj (ground arith);
            apart = λ j k c hj hk ej ek. v.apart j k c hj hk (ground arith) (ground arith);
            marked = λ c hc m. elim (v.marked c hc m) [
              | inl old ↦ inl old
              | inr (j, hj, ej) ↦ inr (j, hj, ground arith)
            ];
            all_marked = λ j hj ej c hc.
                find_next_free_block-none s.block_map 0 c full (omega (arith, v.map_length));
            kept = v.kept;
          }

          one_free :
              (b : ℕ) → find_next_free_block s.block_map 0 ≡ some b → Inv (claim (some b) i s)
          one_free b found =
              let (k, eb, hk, free) = find_next_free_block_free s.block_map 0 found in
              claim_free-Inv b (omega (arith, v.map_length)) i here e
                (ap (λ n. get_or s.block_map n 1) (omega arith) ∙ free)
