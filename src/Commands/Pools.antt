-- ===== src/Commands/Pools.antt =====
-- The tables of Lab5/lab5_2.c as two stacks of threads.
use osisp_labs.Common.{
  ℕ, zero, suc, ◌+◌, ◌-◌, ◌<◌, ◌≡◌, ◌≢◌, ◌⊎◌, inl, inr, refl, sym, ap, ap₂, ◌∙◌, subst, Bool,
  Option, none, some, List, [], ◌∷◌, ◌++◌, ◌==◌, if◌then◌else◌, set, length, length-set,
  get_or-set_self, get_or-set_ne, arith, Bool-cases,
}
use osisp_labs.Commands.{
  Effect, info, Threads, max_child, create_thread, destroy_thread, Input, producer_command,
  consumer_command, step,
}
use osisp_labs.Commands.Stacks.{
  pool, Stacks, view, cancel_top, pop, push, announce, stack_command, stack_step,
}

-- Both tables have their 20 slots.
pub record IsTables (s : Threads) : Type 0 where
  pub prod_slots : length s.prod_id_mas ≡ max_child
  pub cons_slots : length s.cons_id_mas ≡ max_child

-- A thread is only started while a slot is left, and is started indeed.
abbrev pub IsRoomy : Stacks → Input → Type 0
IsRoomy s i =
    ((i.symbol ≢ b'p') × (i.symbol ≢ b'c'))
    ⊎ (i.second ≢ b'+')
    ⊎ ((length s.producing < max_child)
        × (length s.consuming < max_child)
        × ((id : ℕ) × (i.created ≡ some id)))

length-pool : (ids : List ℕ) (n : ℕ) → length (pool ids n) ≡ n
length-pool ids zero = refl
length-pool ids (suc n) = ap suc (length-pool ids n)

pool-set : (ids : List ℕ) (n m id : ℕ) → n < m + 1 → pool (set ids m id) n ≡ pool ids n
pool-set ids zero m id h = refl
pool-set ids (suc n) m id h =
    ap₂ ◌∷◌ (get_or-set_ne ids m n id 0 (λ e. absurd (omega arith)))
      (pool-set ids n m id (omega arith))

pool-push :
    (ids : List ℕ) (n id : ℕ) → n < length ids → pool (set ids n id) (n + 1) ≡ id ∷ pool ids n
pool-push ids n id h =
    ap (pool (set ids n id)) plus_one
    ∙ ap₂ ◌∷◌ (get_or-set_self ids n id 0 h) (pool-set ids n n id (omega arith))
  where
    plus_one : n + 1 ≡ suc n
    plus_one = omega arith

destroy_lem :
    (ids : List ℕ) (n : ℕ)
    → ((destroy_thread ids n).1 ≡ cancel_top (pool ids n))
      × (pool ids (if (destroy_thread ids n).0 then n - 1 else n) ≡ pop (pool ids n))
unfolding destroy_thread
destroy_lem ids zero = (refl, refl)
destroy_lem ids (suc n) = (refl, ap (pool ids) (omega arith))

create_lem :
    (ids : List ℕ) (n id : ℕ) (o : Option ℕ)
    → o ≡ some id
    → n < length ids
    → ((create_thread o ids n).0 ≡ announce o)
      × (pool (create_thread o ids n).1 (n + 1) ≡ push o (pool ids n))
      × (length (create_thread o ids n).1 ≡ length ids)
unfolding create_thread
create_lem ids n id none e h = absurd (cc)
create_lem ids n id (some j) e h = (refl, pool-push ids n j h, length-set ids n j)

Stacks-eq :
    {ps qs cs ds : List ℕ}
    → ps ≡ qs
    → cs ≡ ds
    → ◌≡◌ {A = Stacks}
        (record { producing = ps; consuming = cs })
        (record { producing = qs; consuming = ds })
Stacks-eq e f = λ i. record { producing = e i; consuming = f i }

-- What it means that a round does to the tables what it does to the stacks.
abbrev pub Matches : List Effect × Threads × Bool → List Effect × Stacks × Bool → Type 0
Matches r t = (r.0 ≡ t.0) × (view r.1 ≡ t.1) × (r.2 ≡ t.2) × IsTables r.1

module _ {s : Threads} (v : IsTables s) (i : Input) (roomy : IsRoomy (view s) i) where
  room_for_plus :
      (i.symbol ≡ b'p') ⊎ (i.symbol ≡ b'c')
      → i.second ≡ b'+'
      → (s.producers < max_child) × (s.consumers < max_child) × ((id : ℕ) × (i.created ≡ some id))
  room_for_plus works e = elim roomy [
    | inl (not_p, not_c) ↦ absurd (elim works [ inl p ↦ not_p p | inr c ↦ not_c c ])
    | inr (inl ne) ↦ absurd (ne e)
    | inr (inr (p, c, made)) ↦ (
      omega (arith, length-pool s.prod_id_mas s.producers),
      omega (arith, length-pool s.cons_id_mas s.consumers),
      made,
    )
  ]

  producer_matches :
      i.symbol ≡ b'p'
      → ((producer_command s i).0 ≡ (stack_command (view s).producing i).0)
        × (view (producer_command s i).1
            ≡ record (view s) { producing = (stack_command (view s).producing i).1 })
        × IsTables (producer_command s i).1
  unfolding producer_command stack_command
  producer_matches at = elim (Bool-cases (i.second == b'+')) [
    | inl plus ↦
        let (room, _, (id, made)) = room_for_plus (inl at) (ground arith) in
        let (e, p, l) =
          create_lem s.prod_id_mas s.producers id i.created made (omega (arith, v.prod_slots)) in
        rw (plus) (
          ap (λ x. x ∷ []) e,
          Stacks-eq p refl,
          record { prod_slots = l ∙ v.prod_slots; cons_slots = v.cons_slots },
        )
    | inr other ↦ elim (Bool-cases (i.second == b'-')) [
      | inl minus ↦
          let (e, p) = destroy_lem s.prod_id_mas s.producers in
          rw (other, minus)
            (
              ap (λ x. x ∷ []) e,
              Stacks-eq p refl,
              record { prod_slots = v.prod_slots; cons_slots = v.cons_slots },
            )
      | inr neither ↦ rw (other, neither) (refl, refl, v)
    ]
  ]

  consumer_matches :
      i.symbol ≡ b'c'
      → ((consumer_command s i).0 ≡ (stack_command (view s).consuming i).0)
        × (view (consumer_command s i).1
            ≡ record (view s) { consuming = (stack_command (view s).consuming i).1 })
        × IsTables (consumer_command s i).1
  unfolding consumer_command stack_command
  consumer_matches at = elim (Bool-cases (i.second == b'+')) [
    | inl plus ↦
        let (_, room, (id, made)) = room_for_plus (inr at) (ground arith) in
        let (e, p, l) =
          create_lem s.cons_id_mas s.consumers id i.created made (omega (arith, v.cons_slots)) in
        rw (plus) (
          ap (λ x. x ∷ []) e,
          Stacks-eq refl p,
          record { prod_slots = v.prod_slots; cons_slots = l ∙ v.cons_slots },
        )
    | inr other ↦ elim (Bool-cases (i.second == b'-')) [
      | inl minus ↦
          let (e, p) = destroy_lem s.cons_id_mas s.consumers in
          rw (other, minus)
            (
              ap (λ x. x ∷ []) e,
              Stacks-eq refl p,
              record { prod_slots = v.prod_slots; cons_slots = v.cons_slots },
            )
      | inr neither ↦ rw (other, neither) (refl, refl, v)
    ]
  ]

  step-Matches : Matches (step s i) (stack_step (view s) i)
  unfolding step stack_step
  step-Matches = elim (Bool-cases (i.symbol == b'p')) [
    | inl p ↦ let (e, w, v') = producer_matches (ground (arith, p)) in rw (p) (e, w, refl, v')
    | inr not_p ↦ elim (Bool-cases (i.symbol == b'c')) [
      | inl c ↦
          let (e, w, v') = consumer_matches (ground (arith, c)) in rw (not_p, c) (e, w, refl, v')
      | inr not_c ↦ elim (Bool-cases (i.symbol == b's')) [
        | inl z ↦ rw (not_p, not_c, z) (refl, refl, refl, v)
        | inr not_s ↦ elim (Bool-cases (i.symbol == b'i')) [
          | inl j ↦
              rw (not_p, not_c, not_s, j)
                (
                  ap₂ (λ m n. info m n ∷ []) (sym (length-pool s.prod_id_mas s.producers))
                      (sym (length-pool s.cons_id_mas s.consumers)),
                  refl,
                  refl,
                  v,
                )
          | inr not_i ↦ elim (Bool-cases (i.symbol == b'q')) [
            | inl q ↦ rw (not_p, not_c, not_s, not_i, q) (refl, refl, refl, v)
            | inr not_q ↦ rw (not_p, not_c, not_s, not_i, not_q) (refl, refl, refl, v)
          ]
        ]
      ]
    ]
  ]

-- The effects of the loop, until 'q' ends it.
unfoldable pub run : Threads → List Input → List Effect
run s [] = []
run s (i ∷ is) =
    let rest = run (step s i).1 is in (step s i).0 ++ (if (step s i).2 then rest else [])

unfoldable pub stack_run : Stacks → List Input → List Effect
stack_run s [] = []
stack_run s (i ∷ is) =
    let rest = stack_run (stack_step s i).1 is in
    (stack_step s i).0 ++ (if (stack_step s i).2 then rest else [])

-- Every command of the run has room where it stands.
abbrev pub IsRoomyRun : Stacks → List Input → Type 0
IsRoomyRun s [] = Unit
IsRoomyRun s (i ∷ is) = IsRoomy s i × IsRoomyRun (stack_step s i).1 is

run_matches :
    (is : List Input) {s : Threads} (t : Stacks)
    → IsTables s
    → view s ≡ t
    → IsRoomyRun t is
    → run s is ≡ stack_run t is
unfolding run stack_run
run_matches [] t v e roomy = refl
run_matches (i ∷ is) {s} t v e (roomy, rest) =
    let (r, w, on, v') = step-Matches v i (subst (λ u. IsRoomy u i) (sym e) roomy) in
    ap₂ ◌++◌ (r ∙ ap (λ u. (stack_step u i).0) e) (
      ap₂ (λ b xs. if b then xs else []) (on ∙ ap (λ u. (stack_step u i).2) e)
        (run_matches is (stack_step t i).1 v' (w ∙ ap (λ u. (stack_step u i).1) e) rest))

-- With tables of 20 slots, in every sequence of commands that starts threads only while both
-- tables have a slot left, and whose threads are started indeed, the program starts, cancels and
-- counts threads as two stacks do.
pub run_stacks :
    (is : List Input) {s : Threads}
    → IsTables s
    → IsRoomyRun (view s) is
    → run s is ≡ stack_run (view s) is
run_stacks is {s} v roomy = run_matches is (view s) v refl roomy
