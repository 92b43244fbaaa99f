-- ===== src/RecordFile/Save.antt =====
-- `saveRecord` of Lab7/main.c and the commands around it: what is written, when the user is asked,
-- and which locks stay.
use osisp_labs.Common.{
  ℕ, zero, suc, ◌<◌, ◌≡◌, ◌≢◌, refl, ap, ap₂, ◌∙◌, sym, Bool, true, false, not, ◌&&◌, ◌||◌, ◌⊎◌,
  inl, inr, some, List, [], ◌∷◌, arith, ◌==◌, Bool-cases, get_elem?, set, length, get_elem?-set_ne,
  get_or,
}
use osisp_labs.RecordFile.{
  Record, same_string, same_record, Effect, write_lock, unlock, changed, write_record, save_record,
}
use native.Mathlib.Decide.{ℕ_discrete}

same_string_refl : (s : List ℕ) → same_string s s ≡ true
unfolding same_string
same_string_refl [] = refl
same_string_refl (a ∷ s) = ground (arith, same_string_refl s)

same_string_eq : (s t : List ℕ) → same_string s t ≡ true → s ≡ t
unfolding same_string
same_string_eq [] [] e = refl
same_string_eq [] (b ∷ t) e = absurd (cc)
same_string_eq (a ∷ s) [] e = absurd (cc)
same_string_eq (a ∷ s) (b ∷ t) e =
    let head : a ≡ b = ground arith in
    let tail : same_string s t ≡ true = ground arith in
    ap₂ (λ x y. x ∷ y) head (same_string_eq s t tail)

conjuncts : (a b c : Bool) → (a && b && c) ≡ true → (a ≡ true) × (b ≡ true) × (c ≡ true)
conjuncts true true true e = (refl, refl, refl)
conjuncts true true false e = absurd (cc)
conjuncts true false c e = absurd (cc)
conjuncts false b c e = absurd (cc)

semester-eq : (a b : ℕ) → (a == b) ≡ true → a ≡ b
semester-eq a b e = ground arith

same_record_refl : (r : Record) → same_record r r ≡ true
unfolding same_record
same_record_refl r = rw (same_string_refl r.name, same_string_refl r.address) (ground arith)

same_record_eq : (a b : Record) → same_record a b ≡ true → a ≡ b
unfolding same_record
same_record_eq a b e =
    let (en, ea, es) =
      conjuncts (same_string a.name b.name) (same_string a.address b.address)
        (a.semester == b.semester) e in
    λ i. record {
      name = same_string_eq a.name b.name en i;
      address = same_string_eq a.address b.address ea i;
      semester = semester-eq a.semester b.semester es i;
    }

-- Is record `numb` still locked for writing after the effects, if it was by `b`?
abbrev pub still_held : ℕ → Bool → List Effect → Bool
still_held numb b [] = b
still_held numb b (write_lock n ∷ es) = still_held numb (n == numb || b) es
still_held numb b (unlock n ∷ es) = still_held numb (not (n == numb) && b) es
still_held numb b (_ ∷ es) = still_held numb b es

-- Was the user asked?
abbrev pub asked : List Effect → Bool
asked [] = false
asked (changed ∷ es) = true
asked (_ ∷ es) = asked es

eq_self : (n : ℕ) → (n == n) ≡ true
eq_self n = ground arith

-- The three outcomes of `saveRecord` with the lock.
module _ (junk : Record) (symbol : ℕ) (file : List Record) (numb : ℕ) (new old : Record) where
  abbrev tmp : Record
  tmp = get_or file numb junk

  abbrev written : List Record
  written = write_record file numb new

  pub save_record_barred :
      save_record false junk symbol file numb new old
      ≡ record { file = file; new = new; old = old; effects = [] }
  unfolding save_record
  save_record_barred = refl

  pub save_record_agreed :
      tmp ≡ old
      → save_record true junk symbol file numb new old ≡ record {
        file = written;
        new = new;
        old = old;
        effects = write_lock numb ∷ unlock numb ∷ [];
      }
  unfolding save_record
  save_record_agreed e =
      let same : same_record tmp old ≡ true =
        ap (λ r. same_record r old) e ∙ same_record_refl old in
      rw (same) refl

  pub save_record_refused :
      same_record tmp old ≡ false
      → symbol ≡ b'n'
      → save_record true junk symbol file numb new old
        ≡ record { file = file; new = tmp; old = tmp; effects = write_lock numb ∷ changed ∷ [] }
  unfolding save_record
  save_record_refused other refuse = rw (other, refuse) refl

  pub save_record_insisted :
      same_record tmp old ≡ false
      → symbol ≢ b'n'
      → save_record true junk symbol file numb new old ≡ record {
        file = written;
        new = new;
        old = old;
        effects = write_lock numb ∷ changed ∷ unlock numb ∷ [];
      }
  unfolding save_record
  save_record_insisted other yes' = ground arith

  pub outcome_cases :
      (tmp ≡ old) ⊎ (same_record tmp old ≡ false) × ((symbol ≡ b'n') ⊎ (symbol ≢ b'n'))
  outcome_cases = elim (Bool-cases (same_record tmp old)) [
    | inl same ↦ inl (same_record_eq tmp old same)
    | inr other ↦
        inr (
          other,
          elim (ℕ_discrete symbol b'n') [ yes refuse ↦ inl refuse | no insist ↦ inr insist ],
        )
  ]

-- `saveRecord` keeps its write lock exactly when it has got it, the record in the file is no longer
-- the one that was read, and the answer is 'n'; otherwise it gives the lock back.
pub save_record_lock :
    (granted : Bool) (junk : Record) (symbol : ℕ) (file : List Record) (numb : ℕ) (new old : Record)
    → still_held numb false (save_record granted junk symbol file numb new old).effects
      ≡ (granted && not (same_record (get_or file numb junk) old) && symbol == b'n')
save_record_lock false junk symbol file numb new old =
    ap (λ r. still_held numb false r.effects) (save_record_barred junk symbol file numb new old)
save_record_lock true junk symbol file numb new old =
    let same_of : get_or file numb junk ≡ old → same_record (get_or file numb junk) old ≡ true =
      λ e. ap (λ r. same_record r old) e ∙ same_record_refl old in
    elim (outcome_cases junk symbol file numb new old) [
      | inl same ↦
          rw (save_record_agreed junk symbol file numb new old same, same_of same)
            (ground (arith, eq_self numb))
      | inr (other, inl refuse) ↦
          rw (save_record_refused junk symbol file numb new old other refuse, other, refuse)
            (ground (arith, eq_self numb))
      | inr (other, inr kept) ↦
          rw (save_record_insisted junk symbol file numb new old other kept, other)
            (ground (arith, eq_self numb))
    ]

set_other :
    (file : List Record) (numb j : ℕ) (r : Record)
    → get_elem? (set file numb r) j ≢ get_elem? file j
    → j ≡ numb
set_other file numb j r ne = elim (ℕ_discrete j numb) [
  | yes e ↦ e
  | no e ↦ absurd (ne (get_elem?-set_ne file numb j r (λ f. e (sym f))))
]

get_elem?-get_or :
    (file : List Record) (numb : ℕ) (d : Record)
    → numb < length file
    → get_elem? file numb ≡ some (get_or file numb d)
get_elem?-get_or [] numb d h = absurd (omega arith)
get_elem?-get_or (r ∷ file) zero d h = refl
get_elem?-get_or (r ∷ file) (suc numb) d h = get_elem?-get_or file numb d (omega arith)

pub write_record_inside :
    (file : List Record) (numb : ℕ) (r : Record)
    → numb < length file
    → write_record file numb r ≡ set file numb r
unfolding write_record
write_record_inside file numb r h = ground arith

-- `saveRecord` of a record of the file changes that record only, and never over another's change
-- in silence: the record in the file is the one that was read before, or the user was asked and
-- did not answer 'n'.
pub save_record_guard :
    (granted : Bool) (junk : Record) (symbol : ℕ) (file : List Record) (numb : ℕ) (new old : Record)
    (j : ℕ)
    → numb < length file
    → get_elem? (save_record granted junk symbol file numb new old).file j ≢ get_elem? file j
    → (j ≡ numb)
      × ((get_elem? file numb ≡ some old)
          ⊎ ((asked (save_record granted junk symbol file numb new old).effects ≡ true)
              × (symbol ≢ b'n')))
save_record_guard false junk symbol file numb new old j h ne =
    absurd (ne (ap (λ r. get_elem? r.file j) (save_record_barred junk symbol file numb new old)))
save_record_guard true junk symbol file numb new old j h ne =
    let saved = save_record true junk symbol file numb new old in
    let changed_at : saved.file ≡ write_record file numb new → j ≡ numb = λ e.
      set_other file numb j new
        (λ same. ne (ap (λ f. get_elem? f j) (e ∙ write_record_inside file numb new h) ∙ same)) in
    elim (outcome_cases junk symbol file numb new old) [
      | inl same ↦ (
        changed_at (ap (λ r. r.file) (save_record_agreed junk symbol file numb new old same)),
        inl (get_elem?-get_or file numb junk h ∙ ap some same),
      )
      | inr (other, inl refuse) ↦ absurd (
          ne (
            ap (λ r. get_elem? r.file j)
              (save_record_refused junk symbol file numb new old other refuse)))
      | inr (other, inr kept) ↦ (
        changed_at
            (ap (λ r. r.file) (save_record_insisted junk symbol file numb new old other kept)),
        inr (
          ap (λ r. asked r.effects) (save_record_insisted junk symbol file numb new old other kept),
          kept,
        ),
      )
    ]
