-- ===== src/Environment.antt =====
-- Lab2/functions.c (Lab3/functions.c is a copy): looking up a variable in an environment, which is
-- a list of strings NAME=value, and building strings in blocks of a fixed size. `snprintf` with
-- "%02d" is the C library's: the digits that it would print are an argument.
pub mod Lookup
mod Tests
use osisp_labs.Common.{
  ℕ, zero, suc, ◌+◌, Bool, true, false, Option, none, some, List, [], ◌∷◌, ◌++◌, leb, ◌==◌,
  if◌then◌else◌, length, take,
}

-- The rest behind a '=': `(*env) + i + 2`, if `(*env)[i+1] == '='`.
abbrev pub behind_sign : List ℕ → Option (List ℕ)
behind_sign [] = none
behind_sign (c ∷ cs) = if c == b'=' then some cs else none

-- What the inner loop of `parsEnv` returns, at a place in the name and in the entry.
unfoldable pub match_entry : List ℕ → List ℕ → Option (List ℕ)
match_entry [] entry = none
match_entry (n ∷ name) [] = none
match_entry (n ∷ []) (c ∷ entry) =
    if c == b'=' then none else if n == c then behind_sign entry else none
match_entry (n ∷ m ∷ name) (c ∷ entry) =
    let rest = match_entry (m ∷ name) entry in
    if c == b'=' then none else if n == c then rest else none

-- `parsEnv`
unfoldable pub pars_env : List (List ℕ) → List ℕ → Option (List ℕ)
pars_env [] name = none
pars_env (entry ∷ env) name =
    let rest = pars_env env name in elim (match_entry name entry) [ none ↦ rest | some v ↦ some v ]

-- What a call returns: NULL, a string, or a write behind the block that it has.
pub data Built : Type 0 where
  null : Built
  string : List ℕ → Built
  overflow : Built

-- A string with its end in a block of `size` bytes.
abbrev pub in_block : ℕ → List ℕ → Built
in_block size s = if leb (length s + 1) size then string s else overflow

-- `addStrAndStr`; `none` is NULL.
unfoldable pub add_str_and_str : Option (List ℕ) → Option (List ℕ) → Built
add_str_and_str none _ = null
add_str_and_str (some a) none = null
add_str_and_str (some a) (some b) = in_block 500 (a ++ b)

-- `addStrAndNumb`: at most three characters of the digits come into `buffer`.
unfoldable pub add_str_and_numb : (ℕ → List ℕ) → Option (List ℕ) → ℕ → Built
add_str_and_numb digits none numb = null
add_str_and_numb digits (some s) numb = in_block 9 (s ++ take 3 (digits numb))
