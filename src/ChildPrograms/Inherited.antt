-- ===== src/ChildPrograms/Inherited.antt =====
-- What a child of Lab2/lab2.c finds in the environment that its parent made.
use mathlib.Core.List.{append_assoc}
use osisp_labs.Common.{
  ℕ, ◌+◌, ◌≡◌, ◌<◌, ◌⊎◌, inl, inr, refl, sym, ap, ap₂, subst, ◌∙◌, true, false, Option-cases,
  Option, none, some, List, [], ◌∷◌, ◌++◌, ◌>>=◌, ltb, leb, length, length-append, has, has_inv,
  arith,
}
use osisp_labs.Environment.{pars_env, match_entry, string, add_str_and_str}
use osisp_labs.Environment.Lookup.{entry_of, NoSign, IsName, match_entry_sound, match_entry_found}
use osisp_labs.ChildPrograms.{
  shell, home, hostname, later_names, child_names, variable, child_env, lines_for, output_env,
}

-- A variable with a value that fits.
abbrev pub HasValue : (List ℕ → Option (List ℕ)) → List ℕ → Type 0
HasValue getenv name = (v : List ℕ) × (getenv name ≡ some v) × (length name + length v < 499)

abbrev pub HaveValues : (List ℕ → Option (List ℕ)) → List (List ℕ) → Type 0
HaveValues getenv [] = Unit
HaveValues getenv (name ∷ names) = HasValue getenv name × HaveValues getenv names

unfoldable pub entries :
    (getenv : List ℕ → Option (List ℕ)) (names : List (List ℕ))
    → HaveValues getenv names
    → List (List ℕ)
entries getenv [] h = []
entries getenv (name ∷ names) (h, hs) = entry_of name (h.0) ∷ entries getenv names hs

-- The name is one of the names.
abbrev pub In : List ℕ → List (List ℕ) → Type 0
In name [] = ⊥
In name (n ∷ names) = (n ≡ name) ⊎ In name names

abbrev pub AreNames : List (List ℕ) → Type 0
AreNames [] = Unit
AreNames (name ∷ names) = (IsName name × (length name < 40)) × AreNames names

variable-string :
    (getenv : List ℕ → Option (List ℕ)) (name : List ℕ) (h : HasValue getenv name)
    → variable getenv name ≡ string (entry_of name (h.0))
unfolding add_str_and_str
variable-string getenv name (v, e, fits) =
    let size : length ((name ++ (b'=' ∷ [])) ++ v) ≡ length name + 1 + length v =
      omega (arith, length-append (name ++ (b'=' ∷ [])) v, length-append name (b'=' ∷ [])) in
    let enough : leb (length ((name ++ (b'=' ∷ [])) ++ v) + 1) 500 ≡ true =
      ground (arith, size, fits) in
    rw (e, enough) (ap string (append_assoc name (b'=' ∷ []) v))

child_env-entries :
    (getenv : List ℕ → Option (List ℕ)) (names : List (List ℕ)) (h : HaveValues getenv names)
    → child_env getenv names ≡ some (entries getenv names h)
unfolding child_env entries
child_env-entries getenv [] h = refl
child_env-entries getenv (name ∷ names) (h, hs) =
    rw (variable-string getenv name h) (rw (child_env-entries getenv names hs) refl)

abbrev head_or : List ℕ → ℕ
head_or [] = 0
head_or (c ∷ s) = c

abbrev tail_of : List ℕ → List ℕ
tail_of [] = []
tail_of (c ∷ s) = s

name-NoSign : (n : List ℕ) → IsName n → NoSign n
name-NoSign [] h = absurd h
name-NoSign (c ∷ n) h = h

-- An entry has one name and one value.
entry_of-inj :
    (n m v w : List ℕ) → NoSign n → NoSign m → entry_of n v ≡ entry_of m w → (n ≡ m) × (v ≡ w)
entry_of-inj [] [] v w hn hm e = (refl, ap tail_of e)
entry_of-inj [] (c ∷ m) v w hn hm e = absurd (hm.0 (sym (ap head_or e)))
entry_of-inj (c ∷ n) [] v w hn hm e = absurd (hn.0 (ap head_or e))
entry_of-inj (c ∷ n) (d ∷ m) v w hn hm e =
    let (same, value) = entry_of-inj n m v w (hn.1) (hm.1) (ap tail_of e) in
    (ap₂ ◌∷◌ (ap head_or e) same, value)

nothing_found : (v : List ℕ) → none ≡ some v → ⊥
nothing_found v e = absurd (cc)

-- A name that is among the set ones has its value in the list that they make.
pars_env-entries :
    (getenv : List ℕ → Option (List ℕ)) (names : List (List ℕ)) (h : HaveValues getenv names)
    (n : List ℕ)
    → AreNames names
    → IsName n
    → In n names
    → pars_env (entries getenv names h) n ≡ getenv n
unfolding pars_env entries
pars_env-entries getenv [] h n k isn i = absurd i
pars_env-entries getenv (name ∷ names) ((v, e, fits), hs) n (k, ks) isn i =
    elim (Option-cases (match_entry n (entry_of name v))) [
      | inl missed ↦
          (let rest : In n names = elim i [
            | inl same ↦ absurd (
                let hit : match_entry n (entry_of name v) ≡ some v =
                  subst (λ m. match_entry n (entry_of m v) ≡ some v) (sym same)
                    (match_entry_found n v isn) in
                nothing_found v (sym missed ∙ hit))
            | inr r ↦ r
          ] in
            rw (pars_env, missed) (pars_env-entries getenv names hs n ks isn rest))
      | inr (w, found) ↦
          (let (same, value) =
              entry_of-inj name n v w (name-NoSign name (k.0)) (name-NoSign n isn)
                (match_entry_sound n (entry_of name v) w found) in
            rw (pars_env, found) (ap some (sym value) ∙ sym e ∙ ap getenv same))
    ]

has-NoSign : (n : List ℕ) → has b'=' n ≡ false → NoSign n
has-NoSign [] h = tt
has-NoSign (c ∷ n) h = let (d, rest) = has_inv b'=' c n h in (d, has-NoSign n rest)

later_names-AreNames : AreNames later_names
unfolding has
later_names-AreNames = (
  (has-NoSign (b'L' ∷ b'O' ∷ b'G' ∷ b'N' ∷ b'A' ∷ b'M' ∷ b'E' ∷ []) refl, omega arith),
  (
    (has-NoSign (b'L' ∷ b'A' ∷ b'N' ∷ b'G' ∷ []) refl, omega arith),
    (
      (has-NoSign (b'T' ∷ b'E' ∷ b'R' ∷ b'M' ∷ []) refl, omega arith),
      (
        (has-NoSign (b'U' ∷ b'S' ∷ b'E' ∷ b'R' ∷ []) refl, omega arith),
        (
          (
            has-NoSign (b'L' ∷ b'C' ∷ b'_' ∷ b'C' ∷ b'O' ∷ b'L' ∷ b'L' ∷ b'A' ∷ b'T' ∷ b'E' ∷ [])
                refl,
            omega arith,
          ),
          ((has-NoSign (b'P' ∷ b'A' ∷ b'T' ∷ b'H' ∷ []) refl, omega arith), tt),
        ),
      ),
    ),
  ),
)

child_names-AreNames : AreNames child_names
unfolding has
child_names-AreNames = (
  (has-NoSign shell refl, omega arith),
  (
    (has-NoSign home refl, omega arith),
    ((has-NoSign hostname refl, omega arith), later_names-AreNames),
  ),
)

known-IsName :
    (names : List (List ℕ)) (n : List ℕ) → AreNames names → In n names → IsName n × (length n < 40)
known-IsName [] n h i = absurd i
known-IsName (m ∷ names) n (h, hs) (inl e) = subst (λ n. IsName n × (length n < 40)) e h
known-IsName (m ∷ names) n (h, hs) (inr i) = known-IsName names n hs i

-- All the names of a file are among these.
abbrev pub AllIn : List (List ℕ) → List (List ℕ) → Type 0
AllIn [] names = Unit
AllIn (n ∷ file) names = In n names × AllIn file names

-- What the parent would print.
abbrev pub lines_of : (List ℕ → Option (List ℕ)) → List (List ℕ) → List (List ℕ × Option (List ℕ))
lines_of getenv [] = []
lines_of getenv (n ∷ file) = (n, getenv n) ∷ lines_of getenv file

lines_for-entries :
    (getenv : List ℕ → Option (List ℕ)) (names : List (List ℕ)) (h : HaveValues getenv names)
    (file : List (List ℕ))
    → AreNames names
    → AllIn file names
    → lines_for (pars_env (entries getenv names h)) file ≡ some (lines_of getenv file)
unfolding lines_for
lines_for-entries getenv names h [] k i = refl
lines_for-entries getenv names h (n ∷ file) k (i, is) =
    let (isn, short) = known-IsName names n k i in
    let fits : ltb (length n) 40 ≡ true = ground (arith, short) in
    rw (fits, pars_env-entries getenv names h n k isn i, lines_for-entries getenv names h file k is)
      refl

-- When all variables of `childEnv` are set and fit into their blocks, the child that is started
-- with '*' or '&' prints for each name of its file, all of them names of `childEnv`, the value
-- that it has in the parent, in the order of the file.
pub output_env-inherits :
    (getenv getenv2 : List ℕ → Option (List ℕ)) (file : List (List ℕ)) (symbol : ℕ)
    → HaveValues getenv child_names
    → AllIn file child_names
    → (symbol ≡ b'*') ⊎ (symbol ≡ b'&')
    → (child_env getenv child_names >>= λ env. output_env getenv2 env env symbol file)
      ≡ some (lines_of getenv file)
unfolding output_env
output_env-inherits getenv getenv2 file symbol h i (inl e) =
    rw (child_env-entries getenv child_names h, e)
      (lines_for-entries getenv child_names h file child_names-AreNames i)
output_env-inherits getenv getenv2 file symbol h i (inr e) =
    rw (child_env-entries getenv child_names h, e)
      (lines_for-entries getenv child_names h file child_names-AreNames i)

-- When HOSTNAME is not set in the parent, all variables behind it are lost: if SHELL and HOME
-- have less than 400 characters and the others are set and fit, the child gets only SHELL and
-- HOME.
pub child_env-hostname :
    (getenv : List ℕ → Option (List ℕ)) (sh ho : List ℕ)
    → getenv shell ≡ some sh
    → getenv home ≡ some ho
    → length sh < 400
    → length ho < 400
    → getenv hostname ≡ none
    → HaveValues getenv later_names
    → child_env getenv child_names ≡ some (entry_of shell sh ∷ entry_of home ho ∷ [])
unfolding child_env add_str_and_str
child_env-hostname getenv sh ho e1 e2 k1 k2 lost h =
    rw
      (
        variable-string getenv shell (sh, e1, omega (arith, k1)),
        variable-string getenv home (ho, e2, omega (arith, k2)),
        lost,
        child_env-entries getenv later_names h,
      )
      refl
