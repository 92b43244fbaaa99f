-- ===== src/Environment/Tests.antt =====
-- An environment of Lab2/functions.c, and the theorems at it.
use osisp_labs.Common.{ℕ, ◌+◌, ◌/◌, ◌%◌, ◌≡◌, ◌≢◌, refl, ap, arith, List, [], ◌∷◌, ◌++◌, some}
use osisp_labs.Environment.{pars_env, match_entry, string, add_str_and_numb}
use osisp_labs.Environment.Lookup.{entry_of}

-- "AB=x" before "A=yz" and "A=w"
abbrev longer : List ℕ
longer = b'A' ∷ b'B' ∷ b'=' ∷ b'x' ∷ []

abbrev first : List ℕ
first = b'A' ∷ b'=' ∷ b'y' ∷ b'z' ∷ []

abbrev second : List ℕ
second = b'A' ∷ b'=' ∷ b'w' ∷ []

pars_env_runs : pars_env (longer ∷ first ∷ second ∷ []) (b'A' ∷ []) ≡ some (b'y' ∷ b'z' ∷ [])
unfolding pars_env match_entry
pars_env_runs = refl

abbrev second_char : List ℕ → ℕ
second_char (c ∷ d ∷ cs) = d
second_char _ = 0

longer_other : (w : List ℕ) → longer ≢ entry_of (b'A' ∷ []) w
longer_other w e = let f : b'B' ≡ b'=' = ap second_char e in absurd (omega (arith, f))

-- "%02d" for numbers of two digits
abbrev two_digits : ℕ → List ℕ
two_digits n = (48 + n / 10) ∷ (48 + n % 10) ∷ []

abbrev child : List ℕ
child = b'c' ∷ b'h' ∷ b'i' ∷ b'l' ∷ b'd' ∷ b'_' ∷ []

child_runs : add_str_and_numb two_digits (some child) 7 ≡ string (child ++ (b'0' ∷ b'7' ∷ []))
unfolding add_str_and_numb
child_runs = refl
