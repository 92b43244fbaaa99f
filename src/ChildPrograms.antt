-- ===== src/ChildPrograms.antt =====
-- Lab2/lab2.c, which starts children with an environment of its own making, and Lab2/childProgramm.c,
-- the child, which prints variables. The environment of a process and `getenv` are given by the
-- system; for the child `envp` and `environ` are the strings that `execve` got.
pub mod Inherited
mod Tests
use osisp_labs.Common.{
  ℕ, zero, suc, ◌+◌, Bool, true, false, Option, none, some, List, [], ◌∷◌, ◌++◌, ◌>>=◌, ltb, ◌==◌,
  if◌then◌else◌, length, map,
}
use osisp_labs.Environment.{
  pars_env, Built, null, string, overflow, add_str_and_str, add_str_and_numb,
}

abbrev pub shell : List ℕ
shell = b'S' ∷ b'H' ∷ b'E' ∷ b'L' ∷ b'L' ∷ []

abbrev pub home : List ℕ
home = b'H' ∷ b'O' ∷ b'M' ∷ b'E' ∷ []

abbrev pub hostname : List ℕ
hostname = b'H' ∷ b'O' ∷ b'S' ∷ b'T' ∷ b'N' ∷ b'A' ∷ b'M' ∷ b'E' ∷ []

abbrev pub later_names : List (List ℕ)
later_names =
    (b'L' ∷ b'O' ∷ b'G' ∷ b'N' ∷ b'A' ∷ b'M' ∷ b'E' ∷ [])
    ∷ (b'L' ∷ b'A' ∷ b'N' ∷ b'G' ∷ [])
    ∷ (b'T' ∷ b'E' ∷ b'R' ∷ b'M' ∷ [])
    ∷ (b'U' ∷ b'S' ∷ b'E' ∷ b'R' ∷ [])
    ∷ (b'L' ∷ b'C' ∷ b'_' ∷ b'C' ∷ b'O' ∷ b'L' ∷ b'L' ∷ b'A' ∷ b'T' ∷ b'E' ∷ [])
    ∷ (b'P' ∷ b'A' ∷ b'T' ∷ b'H' ∷ [])
    ∷ []

-- The names of the variables in `childEnv`, in its order.
abbrev pub child_names : List (List ℕ)
child_names = shell ∷ home ∷ hostname ∷ later_names

-- What `execve` sees of an array of strings: those before the first NULL. `none`: one of the blocks
-- was too small.
unfoldable pub before_null : List Built → Option (List (List ℕ))
before_null [] = some []
before_null (null ∷ rest) = before_null rest >>= λ env. some []
before_null (string s ∷ rest) = before_null rest >>= λ env. some (s ∷ env)
before_null (overflow ∷ rest) = none

-- `addStrAndStr("NAME=", getenv("NAME"))`
abbrev pub variable : (List ℕ → Option (List ℕ)) → List ℕ → Built
variable getenv name = add_str_and_str (some (name ++ (b'=' ∷ []))) (getenv name)

unfoldable pub child_env : (List ℕ → Option (List ℕ)) → List (List ℕ) → Option (List (List ℕ))
unfolding before_null add_str_and_str
child_env getenv names = before_null (map (variable getenv) names)

-- What `callChild` gives to `execve`: the path, if it is found, and the name of the child.
pub record Call : Type 0 where
  pub path : Option (List ℕ)
  pub name : Built
  pub symbol : ℕ

abbrev child_word : List ℕ
child_word = b'c' ∷ b'h' ∷ b'i' ∷ b'l' ∷ b'd' ∷ b'_' ∷ []

abbrev child_path : List ℕ
child_path = b'C' ∷ b'H' ∷ b'I' ∷ b'L' ∷ b'D' ∷ b'_' ∷ b'P' ∷ b'A' ∷ b'T' ∷ b'H' ∷ []

abbrev called : (ℕ → List ℕ) → ℕ → ℕ → Option (List ℕ) → ℕ × List Call
called digits symbol count path = (
  count + 1,
  record {
    path = path;
    name = add_str_and_numb digits (some child_word) (count + 1);
    symbol = symbol;
  }
      ∷ [],
)

-- A round of the loop of `main`: the count and the calls. `envp` is what the process
-- started with, `environ` what it has now.
unfoldable pub main_step :
    (ℕ → List ℕ)
    → (List ℕ → Option (List ℕ))
    → List (List ℕ)
    → List (List ℕ)
    → ℕ
    → ℕ
    → ℕ × List Call
unfolding add_str_and_numb pars_env
main_step digits getenv envp environ symbol count =
    if symbol == b'+'
    then called digits symbol count (getenv child_path)
    else if symbol == b'*'
    then called digits symbol count (pars_env envp child_path)
    else if symbol == b'&'
    then called digits symbol count (pars_env environ child_path)
    else (count, [])

-- The loop of `main` over the first characters of the lines, up to 'q': the calls in their order.
unfoldable pub main :
    (ℕ → List ℕ)
    → (List ℕ → Option (List ℕ))
    → List (List ℕ)
    → List (List ℕ)
    → List ℕ
    → ℕ
    → List Call
unfolding main_step
main digits getenv envp environ [] count = []
main digits getenv envp environ (symbol ∷ symbols) count =
    let (count2, calls) = main_step digits getenv envp environ symbol count in
    elim (symbol == b'q') [
      | true ↦ []
      | false ↦ calls ++ main digits getenv envp environ symbols count2
    ]

-- The lines of `outputEnv`: a name of the file with its value. `none`: a name does not fit into 40
-- bytes.
unfoldable pub lines_for :
    (List ℕ → Option (List ℕ)) → List (List ℕ) → Option (List (List ℕ × Option (List ℕ)))
lines_for value [] = some []
lines_for value (name ∷ file) =
    let rest = lines_for value file in
    if ltb (length name) 40 then (rest >>= λ lines. some ((name, value name) ∷ lines)) else none

-- `outputEnv`
unfoldable pub output_env :
    (List ℕ → Option (List ℕ))
    → List (List ℕ)
    → List (List ℕ)
    → ℕ
    → List (List ℕ)
    → Option (List (List ℕ × Option (List ℕ)))
unfolding lines_for pars_env
output_env getenv envp environ symbol file =
    if symbol == b'+'
    then lines_for getenv file
    else if symbol == b'*'
    then lines_for (pars_env envp) file
    else if symbol == b'&'
    then lines_for (pars_env environ) file
    else some []
