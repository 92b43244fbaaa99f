-- ===== src/ExternalSort.antt =====
-- Lab6/main.c: the external sort of an index file by its time marks. The mapped file without its
-- header is a list of records, an address in it the number of a record, and a size in bytes the
-- number of the records that fill it. `double` has no model here: the type of the marks and its
-- `<` are parameters, and the theorems say what they use of the order.
pub mod Order
pub mod Merge
pub mod Rounds
pub mod Phases
pub mod Ints
pub mod Slices
pub mod Threads
pub mod Chunks
pub mod MergePhase
pub mod Main
pub mod Tests
use Prim.Native.Nat.{Ordering}
use osisp_labs.Common.{
  ℕ, zero, suc, ◌+◌, ◌-◌, ◌*◌, ◌/◌, ◌^◌, Bool, true, false, ◌&&◌, Option, none, some, List, [], ◌∷◌,
  ◌++◌, ltb, ◌==◌, if◌then◌else◌, take, drop,
}

-- `index_s`
pub record Index (Mark : Type 0) : Type 0 where
  pub time_mark : Mark
  pub recno : ℕ

-- `find_next_free_block`: `i` is the number of the first entry of the map given; the argument
-- `current_block` is not used. `none` is -1.
unfoldable pub find_next_free_block : List ℕ → ℕ → Option ℕ
find_next_free_block [] i = none
find_next_free_block (entry ∷ block_map) i =
    if entry == 0 then some i else find_next_free_block block_map (i + 1)

-- Does the size of so many records in bytes fit into an `int`?
abbrev pub in_int : ℕ → Bool
in_int records = ltb (records * 16) (2 ^ 31)

-- The `int`s of a round of merges: where the last block stands, and the size of a block of the next
-- round.
abbrev pub round_fits : ℕ → ℕ → Bool
round_fits blocks size = in_int ((blocks / 2 * 2 - 1) * size) && in_int (size * 2)

module _ {A : Type 0} where
  -- The `n` records from `start` on.
  abbrev pub slice : List A → ℕ → ℕ → List A
  slice a start n = take n (drop start a)

  -- `memcpy` of the `n` records `xs` to `start`.
  abbrev pub splice : List A → ℕ → ℕ → List A → List A
  splice a start n xs = take start a ++ (xs ++ drop (start + n) a)

module _ {Mark : Type 0} (lt : Mark → Mark → Bool) where
  unfoldable pub compare_index_s : Index Mark → Index Mark → Ordering
  compare_index_s a b =
      if lt a.time_mark b.time_mark
      then Ordering.lt
      else if lt b.time_mark a.time_mark
      then Ordering.gt
      else Ordering.eq

  -- The three loops of `merge`: what they write to `temp`, given the rests of both halves.
  unfoldable pub merge_loop : List (Index Mark) → List (Index Mark) → List (Index Mark)
  merge_loop [] r = r
  merge_loop (x ∷ l) [] = x ∷ l
  merge_loop (x ∷ l) (y ∷ r) = elim (lt x.time_mark y.time_mark) [
    | true ↦ x ∷ merge_loop l (y ∷ r)
    | false ↦ y ∷ merge_loop (x ∷ l) r
  ]

  -- `merge`, with the records around it
  unfoldable pub merge : List (Index Mark) → ℕ → ℕ → ℕ → List (Index Mark)
  merge a start1 start2 count =
      splice a start1 (count * 2) (merge_loop (slice a start1 count) (slice a start2 count))

  -- The `for` over `tmpBlockId` (and over `i` in `merge_all`), with `rounds` left.
  unfoldable pub merge_pairs : ℕ → List (Index Mark) → ℕ → ℕ → List (Index Mark)
  merge_pairs size a i zero = a
  merge_pairs size a i (suc rounds) =
      merge_pairs size (merge a (i * 2 * size) ((i * 2 + 1) * size) size) (i + 1) rounds

  -- The `while (blocks > 1)`. Each round halves `blocks`, so as much fuel as blocks is enough.
  unfoldable pub merge_rounds : ℕ → List (Index Mark) → ℕ → ℕ → List (Index Mark)
  merge_rounds zero a blocks size = a
  merge_rounds (suc fuel) a blocks size =
      let rest = merge_rounds fuel (merge_pairs size a 0 (blocks / 2)) (blocks / 2) (size * 2) in
      if ltb 1 blocks then rest else a

  -- `merge_all`
  unfoldable pub merge_all : List (Index Mark) → ℕ → ℕ → List (Index Mark)
  unfolding merge_rounds
  merge_all a blocks size = merge_rounds blocks a blocks size

  -- The `while (merge_blocks > 1)` of `lastMerge`. `none`: a product of `int`s overflows.
  unfoldable pub last_rounds : ℕ → List (Index Mark) → ℕ → ℕ → Option (List (Index Mark))
  last_rounds zero a blocks size = some a
  last_rounds (suc fuel) a blocks size =
      let rest = last_rounds fuel (merge_pairs size a 0 (blocks / 2)) (blocks / 2) (size * 2) in
      if ltb 1 blocks then (if round_fits blocks size then rest else none) else some a

  -- `lastMerge`, where `records` is the file's size without its header, in records. Its `int`s are
  -- the number of chunks and the size of one in bytes.
  unfoldable pub last_merge : List (Index Mark) → ℕ → ℕ → Option (List (Index Mark))
  unfolding last_rounds
  last_merge a records memsize =
      if in_int memsize && ltb (records / memsize) (2 ^ 31)
      then last_rounds (records / memsize) a (records / memsize) memsize
      else none
