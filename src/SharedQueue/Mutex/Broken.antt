-- ===== src/SharedQueue/Mutex/Broken.antt =====
-- A signal that ends a wait for the mutex of Lab4/lab4Main.c lets a second process into the section.
use mathlib.Core.Path.{fun_ext}
use mathlib.Core.List.{append_assoc}
use native.Mathlib.Decide.{ℕ_discrete}
use mathlib.Core.Option.{some-injective}
use osisp_labs.Common.{
  defined_from, ◌>>=◌, ℕ, ◌+◌, ◌/◌, ◌≡◌, ◌≢◌, refl, ap, sym, ◌∙◌, Bool, true, false, Option, some,
  List, [], ◌∷◌, ◌++◌, ◌==◌, if◌then◌else◌, equal_self, unequal,
}
use osisp_labs.SharedQueue.{Shared, message_bytes, max_str_len, data_bytes}
use osisp_labs.SharedQueue.Mutex.{
  Pc, outside, waiting, counting, posting_mutex, System, update, work, Event, interrupted, works,
  leaves, step, run,
}

-- The stores of two processes in turn, true for the first.
unfoldable both : List Bool → Shared → Pc → Pc → Option (Shared × Pc × Pc)
unfolding work
both [] sh p q = some (sh, p, q)
both (true ∷ bs) sh p q = work p sh >>= λ (p', sh'). both bs sh' p' q
both (false ∷ bs) sh p q = work q sh >>= λ (q', sh'). both bs sh' p q'

-- Each copies its struct before the other moves the tail; then both go on to the end.
abbrev overlap : List Bool
overlap =
    true ∷ true ∷ false ∷ false ∷ true ∷ true ∷ true ∷ true ∷ true ∷ false ∷ false ∷ false ∷ false
    ∷ false ∷ []

module _ (f : ℕ → Pc) (i j : ℕ) (ne : i ≢ j) where
  -- The processes, two of them where the arguments say.
  abbrev pub two_at : Pc → Pc → ℕ → Pc
  two_at p q = λ k. if i == k then p else if j == k then q else f k

  abbrev pub state : Shared → ℕ → Pc → Pc → System
  state shared mutex p q = record { shared = shared; mutex = mutex; pc = two_at p q }

  update_first : (p q p' : Pc) → update (two_at p q) i p' ≡ two_at p' q
  update_first p q p' = fun_ext (λ k. elim (ℕ_discrete i k) [
    | yes same ↦ let at : (i == k) ≡ true = ap (λ m. i == m) (sym same) ∙ equal_self i in rw at refl
    | no other ↦ rw (unequal i k other) refl
  ])

  update_second : (p q q' : Pc) → update (two_at p q) j q' ≡ two_at p q'
  update_second p q q' = fun_ext (λ k. elim (ℕ_discrete j k) [
    | yes same ↦
        let at : (j == k) ≡ true = ap (λ m. j == m) (sym same) ∙ equal_self j in
        let off : (i == k) ≡ false = unequal i k (λ e. ne (e ∙ sym same)) in rw (at, off) refl
    | no other ↦ rw (unequal j k other) refl
  ])

  first_at : (p q : Pc) → two_at p q i ≡ p
  first_at p q = rw (equal_self i) refl

  second_at : (p q : Pc) → two_at p q j ≡ q
  second_at p q = rw (unequal i j ne, equal_self j) refl

  module _ (es : List Event) (sh : Shared) (m : ℕ) (p q : Pc) where
    first_works :
        (p' : Pc) (sh' : Shared)
        → work p sh ≡ some (p', sh')
        → run (works i ∷ es) (state sh m p q) ≡ run es (state sh' m p' q)
    unfolding run step
    first_works p' sh' e = rw (equal_self i, e, update_first p q p') refl

    second_works :
        (q' : Pc) (sh' : Shared)
        → work q sh ≡ some (q', sh')
        → run (works j ∷ es) (state sh m p q) ≡ run es (state sh' m p q')
    unfolding run step
    second_works q' sh' e = rw (unequal i j ne, equal_self j, e, update_second p q q') refl

  module _ (es : List Event) (sh : Shared) (m : ℕ) where
    breaks_in :
        (a : ℕ) (q : Pc)
        → run (interrupted i ∷ es) (state sh m (waiting a) q) ≡ run es (state sh m (counting a) q)
    unfolding run step
    breaks_in a q = rw (equal_self i, update_first (waiting a) q (counting a)) refl

    first_leaves :
        (q : Pc)
        → run (leaves i ∷ es) (state sh m posting_mutex q) ≡ run es (state sh (m + 1) outside q)
    unfolding run step
    first_leaves q = rw (equal_self i, update_first posting_mutex q outside) refl

    second_leaves :
        (p : Pc)
        → run (leaves j ∷ es) (state sh m p posting_mutex) ≡ run es (state sh (m + 1) p outside)
    unfolding run step
    second_leaves p = rw (unequal i j ne, equal_self j, update_second p posting_mutex outside) refl

  -- Stores of the first process, for true, and of the second.
  abbrev stores : List Bool → List Event
  stores [] = []
  stores (true ∷ bs) = works i ∷ stores bs
  stores (false ∷ bs) = works j ∷ stores bs

  run-stores :
      (bs : List Bool) (es : List Event) (sh sh' : Shared) (m : ℕ) (p q p' q' : Pc)
      → both bs sh p q ≡ some (sh', p', q')
      → run (stores bs ++ es) (state sh m p q) ≡ run es (state sh' m p' q')
  unfolding both
  run-stores [] es sh sh' m p q p' q' e =
      ap (λ (t, u, v). run es (state t m u v)) (some-injective _ _ e)
  run-stores (true ∷ bs) es sh sh' m p q p' q' e =
      let ((p1, sh1), worked, rest) =
        defined_from (work p sh) (λ (p1, sh1). both bs sh1 p1 q) (sh', p', q') e in
      first_works (stores bs ++ es) sh m p q p1 sh1 worked
      ∙ run-stores bs es sh1 sh' m p1 q p' q' rest
  run-stores (false ∷ bs) es sh sh' m p q p' q' e =
      let ((q1, sh1), worked, rest) =
        defined_from (work q sh) (λ (q1, sh1). both bs sh1 p q1) (sh', p', q') e in
      second_works (stores bs ++ es) sh m p q q1 sh1 worked
      ∙ run-stores bs es sh1 sh' m p q1 p' q' rest

  -- If a signal ends the wait of one process for the mutex while another has just entered the
  -- section: there is an order of their stores in which both copy their structs to one place,
  -- and both give the mutex back, so that two processes at once have it from then on.
  pub interrupted_overwrites :
      (a b : ℕ) (sh : Shared)
      → (es : List Event) × (s : System) × (run es (state sh 0 (waiting a) (counting b)) ≡ some s)
        × (s.mutex ≡ 2)
        × (rest : List (ℕ × ℕ)) × (s.shared.copies
            ≡ ((sh.copies ++ ((sh.tail, message_bytes) ∷ [])) ++ ((sh.tail, message_bytes) ∷ []))
              ++ rest)
  unfolding run work both
  interrupted_overwrites a b sh =
      let struct = (sh.tail, message_bytes) ∷ [] in
      let data_a = (sh.tail + message_bytes, data_bytes a) ∷ [] in
      let moved = sh.tail + message_bytes + max_str_len in
      let next = if moved / (max_str_len + message_bytes) == 10 then 0 else moved in
      let data_b = (next + message_bytes, data_bytes b) ∷ [] in
      let last = leaves i ∷ leaves j ∷ [] in
      (
        interrupted i ∷ (stores overlap ++ last),
        _,
        breaks_in (stores overlap ++ last) sh 0 a (counting b)
            ∙ run-stores overlap last sh _ 0 (counting a) (counting b) posting_mutex posting_mutex
                refl
            ∙ first_leaves (leaves j ∷ []) _ 0 posting_mutex
            ∙ second_leaves [] _ 1 outside,
        refl,
        data_a ++ data_b,
        append_assoc ((sh.copies ++ struct) ++ struct) data_a data_b,
      )
