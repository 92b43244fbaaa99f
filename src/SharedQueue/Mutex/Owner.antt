-- ===== src/SharedQueue/Mutex/Owner.antt =====
-- Who is in the section of Lab4/lab4Main.c, and what the queue is then, event by event.
use native.Mathlib.Decide.{ℕ_discrete}
use osisp_labs.Common.{
  ℕ, suc, ◌+◌, ◌≡◌, ◌≢◌, refl, ap, sym, ◌∙◌, ◌⊎◌, inl, inr, arith, true, false, some, List, ◌∷◌,
}
use osisp_labs.SharedQueue.{Shared, add_message}
use osisp_labs.SharedQueue.Mutex.{
  Pc, outside, waiting, counting, posting_mutex, System, update, work,
}
use osisp_labs.SharedQueue.Mutex.Sections.{
  in_section, finish, finish-add_message, finish-work, fill, update_self, update_ne, update_outside,
  work-inside,
}

-- Nobody is in the section, or one process is, and the queue is what the messages that came make it.
pub record Idle (given : Shared) (sizes : List ℕ) (st : System) : Type 0 where
  pub open_mutex : st.mutex ≡ 1
  pub nobody : (j : ℕ) → in_section (st.pc j) ≡ false
  pub filled : st.shared ≡ fill sizes given

pub record Busy (given : Shared) (sizes : List ℕ) (st : System) : Type 0 where
  pub owner : ℕ
  pub shut_mutex : st.mutex ≡ 0
  pub inside : in_section (st.pc owner) ≡ true
  pub others : (j : ℕ) → owner ≢ j → in_section (st.pc j) ≡ false
  pub filled : finish (st.pc owner) st.shared ≡ fill sizes given

abbrev pub Good : Shared → System → Type 0
Good given st = (sizes : List ℕ) × (Idle given sizes st ⊎ Busy given sizes st)

module _ (given : Shared) (st : System) where
  -- A process in the section is the one that owns it.
  pub owns :
      {sizes : List ℕ} (busy : Busy given sizes st) (i : ℕ)
      → in_section (st.pc i) ≡ true
      → busy.owner ≡ i
  owns busy i h = elim (ℕ_discrete busy.owner i) [
    | yes same ↦ same
    | no ne ↦ absurd (cc (busy.others i ne, h))
  ]

  -- The process of an event in another place outside the section.
  pub same_outside :
      (i : ℕ) (p : Pc)
      → in_section (st.pc i) ≡ false
      → in_section p ≡ false
      → Good given st
      → Good given (record st { pc = update st.pc i p })
  same_outside i p h k (sizes, inl idle) = (
    sizes,
    inl (record {
      open_mutex = idle.open_mutex;
      nobody = λ j. update_outside st.pc i j p k (λ _. idle.nobody j);
      filled = idle.filled;
    }),
  )
  same_outside i p h k (sizes, inr busy) =
      let other : i ≢ busy.owner =
        λ same. absurd (cc (busy.inside, ap (λ m. in_section (st.pc m)) same, h)) in
      let kept : update st.pc i p busy.owner ≡ st.pc busy.owner =
        update_ne st.pc i busy.owner p other in
      (
        sizes,
        inr (record {
          owner = busy.owner;
          shut_mutex = busy.shut_mutex;
          inside = ap in_section kept ∙ busy.inside;
          others = λ j ne. update_outside st.pc i j p k (λ _. busy.others j ne);
          filled = ap (λ q. finish q st.shared) kept ∙ busy.filled;
        }),
      )

  -- A process enters by a unit of the semaphore.
  pub enters-Good :
      (i size n : ℕ)
      → st.pc i ≡ waiting size
      → st.mutex ≡ suc n
      → Good given st
      → Good given (record st { mutex = n; pc = update st.pc i (counting size) })
  enters-Good i size n e m (sizes, inl idle) =
      let there = update_self st.pc i (counting size) in
      (
        size ∷ sizes,
        inr (record {
          owner = i;
          shut_mutex = omega (arith, m, idle.open_mutex);
          inside = ap in_section there;
          others = λ j ne. ap in_section (update_ne st.pc i j (counting size) ne) ∙ idle.nobody j;
          filled =
              ap (λ q. finish q st.shared) there
              ∙ finish-add_message size st.shared
              ∙ ap (add_message size) idle.filled;
        }),
      )
  enters-Good i size n e m (sizes, inr busy) = absurd (omega (arith, m, busy.shut_mutex))

  pub works-Good :
      (i : ℕ) (r : Pc × Shared)
      → work (st.pc i) st.shared ≡ some r
      → Good given st
      → Good given (record st { shared = r.1; pc = update st.pc i r.0 })
  works-Good i r e (sizes, inl idle) =
      absurd (cc (idle.nobody i, work-inside (st.pc i) st.shared r e))
  works-Good i r e (sizes, inr busy) =
      let mine = owns busy i (work-inside (st.pc i) st.shared r e) in
      let (inside, same) = finish-work (st.pc i) st.shared r e in
      let there = update_self st.pc i r.0 in
      (
        sizes,
        inr (record {
          owner = i;
          shut_mutex = busy.shut_mutex;
          inside = ap in_section there ∙ inside;
          others = λ j ne.
              ap in_section (update_ne st.pc i j r.0 ne)
              ∙ busy.others j (λ own. ne (sym mine ∙ own));
          filled =
              ap (λ q. finish q r.1) there
              ∙ same
              ∙ ap (λ m. finish (st.pc m) st.shared) (sym mine)
              ∙ busy.filled;
        }),
      )

  pub leaves-Good :
      (i : ℕ)
      → st.pc i ≡ posting_mutex
      → Good given st
      → Good given (record st { mutex = st.mutex + 1; pc = update st.pc i outside })
  leaves-Good i e (sizes, inl idle) = absurd (cc (idle.nobody i, ap in_section e))
  leaves-Good i e (sizes, inr busy) =
      let mine = owns busy i (ap in_section e) in
      (
        sizes,
        inl (record {
          open_mutex = omega (arith, busy.shut_mutex);
          nobody = λ j.
              update_outside st.pc i j outside refl
                (λ ne. busy.others j (λ own. ne (sym mine ∙ own)));
          filled =
              ap (λ q. finish q st.shared) (sym e)
              ∙ ap (λ m. finish (st.pc m) st.shared) (sym mine)
              ∙ busy.filled;
        }),
      )
