-- ===== src/Environment/Lookup.antt =====
-- What `parsEnv` of Lab2/functions.c finds, and which names fit into their block.
use osisp_labs.Common.{
  ℕ, ◌+◌, ◌≤◌, ◌<◌, ◌≡◌, ◌≢◌, ◌↔◌, inl, inr, refl, sym, ap, ap₂, ◌∙◌, Bool, true, false, Option,
  none, some, List, [], ◌∷◌, ◌++◌, leb, ◌==◌, if◌then◌else◌, length, take, arith, Bool-cases,
  Option-cases, length-append, length-take, min,
}
use osisp_labs.Environment.{behind_sign, match_entry, pars_env, string, overflow, add_str_and_numb}

-- The entry of a variable.
abbrev pub entry_of : List ℕ → List ℕ → List ℕ
entry_of name v = name ++ (b'=' ∷ v)

-- A name that a variable can have: not empty, and without '='.
abbrev pub NoSign : List ℕ → Type 0
NoSign [] = Unit
NoSign (n ∷ name) = (n ≢ b'=') × NoSign name

abbrev pub IsName : List ℕ → Type 0
IsName [] = ⊥
IsName (n ∷ name) = NoSign (n ∷ name)

behind_sign_lem : (cs v : List ℕ) → behind_sign cs ≡ some v → cs ≡ b'=' ∷ v
behind_sign_lem [] v e = absurd (cc)
behind_sign_lem (c ∷ cs) v e = ground arith

guarded :
    (a b : Bool) (o : Option (List ℕ)) (v : List ℕ)
    → (if a then none else if b then o else none) ≡ some v
    → (b ≡ true) × (o ≡ some v)
guarded true b o v e = absurd (cc)
guarded false true o v e = (refl, e)
guarded false false o v e = absurd (cc)

same_char : (n c : ℕ) → n == c ≡ true → n ≡ c
same_char n c e = ground arith

-- Only the entry of the name matches, with its value.
pub match_entry_sound :
    (name entry v : List ℕ) → match_entry name entry ≡ some v → entry ≡ entry_of name v
unfolding match_entry
match_entry_sound [] entry v e = absurd (cc)
match_entry_sound (n ∷ name) [] v e = absurd (cc)
match_entry_sound (n ∷ []) (c ∷ entry) v e =
    let (same, rest) = guarded (c == b'=') (n == c) (behind_sign entry) v e in
    ap₂ ◌∷◌ (sym (same_char n c same)) (behind_sign_lem entry v rest)
match_entry_sound (n ∷ m ∷ name) (c ∷ entry) v e =
    let (same, rest) = guarded (c == b'=') (n == c) (match_entry (m ∷ name) entry) v e in
    ap₂ ◌∷◌ (sym (same_char n c same)) (match_entry_sound (m ∷ name) entry v rest)

pub match_entry_found :
    (name v : List ℕ) → IsName name → match_entry name (entry_of name v) ≡ some v
unfolding match_entry
match_entry_found [] v h = absurd h
match_entry_found (n ∷ []) v h =
    let plain : (n == b'=') ≡ false = ground (arith, h.0) in
    let same : (n == n) ≡ true = ground arith in rw (plain, same) refl
match_entry_found (n ∷ m ∷ name) v h =
    let plain : (n == b'=') ≡ false = ground (arith, h.0) in
    let same : (n == n) ≡ true = ground arith in
    rw (plain, same) (match_entry_found (m ∷ name) v h.1)

-- No entry of the list is one of the name.
abbrev pub Lacks : List ℕ → List (List ℕ) → Type 0
Lacks name [] = Unit
Lacks name (entry ∷ env) = ((w : List ℕ) → entry ≢ entry_of name w) × Lacks name env

match_entry_missing :
    (name entry : List ℕ) → ((w : List ℕ) → entry ≢ entry_of name w) → match_entry name entry ≡ none
match_entry_missing name entry h = elim (Option-cases (match_entry name entry)) [
  | inl e ↦ e
  | inr (w, e) ↦ absurd (h w (match_entry_sound name entry w e))
]

-- For a name that is not empty and has no '=', `parsEnv` finds the value of the first entry of this
-- name, if there is one.
pub pars_env_first :
    (name v : List ℕ) (before behind : List (List ℕ))
    → IsName name
    → Lacks name before
    → pars_env (before ++ (entry_of name v ∷ behind)) name ≡ some v
unfolding pars_env
pars_env_first name v [] behind h lacks = rw (match_entry_found name v h, pars_env) refl
pars_env_first name v (entry ∷ before) behind h lacks =
    rw (match_entry_missing name entry lacks.0, pars_env)
      (pars_env_first name v before behind h lacks.1)

-- `addStrAndNumb` writes behind its 9 bytes for a string of six characters exactly when the number
-- is printed with three characters or more; else it appends what is printed.
pub child_name_overflow :
    (digits : ℕ → List ℕ) (s : List ℕ) (numb : ℕ)
    → length s ≡ 6
    → ((add_str_and_numb digits (some s) numb ≡ overflow) ↔ (3 ≤ length (digits numb)))
unfolding add_str_and_numb
child_name_overflow digits s numb six =
    let whole = s ++ take 3 (digits numb) in
    let l : length whole ≡ 6 + min 3 (length (digits numb)) =
      omega (arith, six, length-append s (take 3 (digits numb)), length-take 3 (digits numb)) in
    elim (Bool-cases (leb (length whole + 1) 9)) [
      | inl fits ↦
          let few : length whole + 1 ≤ 9 = ground arith in
          (
            (λ e. absurd (
                let f : string whole ≡ overflow =
                  sym (ap (λ b. if b then string whole else overflow) fits) ∙ e in
                cc)),
            λ h. absurd (omega (arith, l, few)),
          )
      | inr over ↦
          let many : 9 < length whole + 1 = ground arith in
          ((λ e. omega (arith, l, many)), λ h. ap (λ b. if b then string whole else overflow) over)
    ]
