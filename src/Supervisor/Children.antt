-- ===== src/Supervisor/Children.antt =====
-- The names of the children of Lab3/lab3.c, and the list that it prints of them.
use osisp_labs.Common.{
  ℕ, zero, suc, ◌+◌, ◌<◌, ◌≤◌, ◌≡◌, ◌↔◌, refl, ap, ◌∙◌, sym, subst, Bool, true, Option, some, none,
  List, [], ◌∷◌, ◌++◌, arith, leb, get_elem?, length, take,
}
use osisp_labs.Environment.{Built, string, add_str_and_numb}
use osisp_labs.Supervisor.{
  Pid, process, listed, Parent, Input, max_child, listed_from, list_processes, step,
}
use osisp_labs.Supervisor.Table.{IsTable}

abbrev child_word : List ℕ
child_word = b'c' ∷ b'h' ∷ b'i' ∷ b'l' ∷ b'd' ∷ b'_' ∷ []

-- The name of a child: what `callChild` prints, and the only argument of the program.
unfoldable pub child_name : (ℕ → List ℕ) → ℕ → Built
unfolding add_str_and_numb
child_name digits child_count = add_str_and_numb digits (some child_word) child_count

-- With two digits for a number below 100, every child that the table has room for gets its whole
-- number in its name, within the block that it has.
pub child_name_fits :
    (digits : ℕ → List ℕ) (child_count : ℕ)
    → ((n : ℕ) → n < 100 → length (digits n) ≡ 2)
    → child_count < max_child
    → child_name digits child_count ≡ string (child_word ++ digits child_count)
unfolding child_name
child_name_fits digits n h few =
    let l : length (digits n) ≡ 2 = h n (omega (arith, few)) in
    let whole : take 3 (digits n) ≡ digits n = take_few (digits n) l in
    let fits : leb (length (child_word ++ digits n) + 1) 9 ≡ true = ground (arith, l) in
    rw (add_str_and_numb, whole, fits) refl
  where
    take_few : (s : List ℕ) → length s ≡ 2 → take 3 s ≡ s
    take_few [] e = refl
    take_few (a ∷ []) e = refl
    take_few (a ∷ b ∷ []) e = refl
    take_few (a ∷ b ∷ c ∷ s) e = absurd (omega (arith, e))

in_table : (pids : List Pid) (i : ℕ) → i < length pids → (p : Pid) × (get_elem? pids i ≡ some p)
in_table [] i h = absurd (omega (arith, h))
in_table (p ∷ pids) zero h = (p, refl)
in_table (p ∷ pids) (suc i) h = in_table pids i (omega (arith, h))

abbrev shown_slot : Option Pid → List Pid
shown_slot none = []
shown_slot (some p) = p ∷ []

listed_slot :
    (pids : List Pid) (i n : ℕ) (p : Pid)
    → get_elem? pids i ≡ some p
    → listed_from pids i (suc n) ≡ p ∷ listed_from pids (i + 1) n
unfolding listed_from
listed_slot pids i n p e = ground (arith, e)

same_process : {p q : ℕ} → some (process p) ≡ some (process q) → p ≡ q
same_process e = cc

-- `listProcesses` prints the slots of the table one by one.
listed_from-take :
    (pids : List Pid) (i n : ℕ)
    → i + n ≤ length pids
    → (j : ℕ) → j < n
    → get_elem? (listed_from pids i n) j ≡ get_elem? pids (i + j)
unfolding listed_from
listed_from-take pids i zero h j k = absurd (omega (arith, k))
listed_from-take pids i (suc n) h zero k =
    let (p, e) = in_table pids i (omega (arith, h)) in
    ap (λ l. get_elem? l 0) (listed_slot pids i n p e) ∙ sym e ∙ ap (get_elem? pids) (omega arith)
listed_from-take pids i (suc n) h (suc j) k =
    let (p, e) = in_table pids i (omega (arith, h)) in
    ap (λ l. get_elem? l (suc j)) (listed_slot pids i n p e)
    ∙ listed_from-take pids (i + 1) n (omega (arith, h)) j (omega (arith, k))
    ∙ ap (get_elem? pids) (omega arith)

-- If the table shows the children that run, 'l' prints exactly their numbers.
pub list_processes-IsTable :
    {s : Parent} {runs : ℕ → Bool}
    → IsTable s runs
    → (input : Input) → input.symbol ≡ b'l'
    → (pids : List Pid) × ((step s input).0 ≡ listed pids ∷ [])
      × ((p : ℕ)
          → (runs p ≡ true) ↔ ((i : ℕ) × (i < s.children) × (get_elem? pids i ≡ some (process p))))
unfolding step list_processes
list_processes-IsTable {s} {runs} t input e =
    let pids = listed_from s.child_pid_mas 0 s.children in
    let slots = listed_from-take s.child_pid_mas 0 s.children (omega (arith, t.whole, t.room)) in
    (
      pids,
      ground (arith, e),
      λ p. (
        (λ alive.
            let (i, h, at) = t.covered p alive in
            (i, h, slots i h ∙ ap (get_elem? s.child_pid_mas) (omega arith) ∙ at)),
        λ (i, h, at).
            let (q, eq, alive) = t.filled i h in
            subst (λ r. runs r ≡ true)
              (same_process
                (sym eq ∙ ap (get_elem? s.child_pid_mas) (omega arith) ∙ sym (slots i h) ∙ at))
              alive,
      ),
    )
