-- ===== src/DirectoryWalk.antt =====
-- Lab1/Lab1.c: the walk over a directory and all below it. The names in a directory, in the order
-- of `scandir` with or without the comparison, and the kind of a path by `lstat` are given by the
-- system. What the walk prints is a list of lines.
pub mod Trees
pub mod Report
pub mod Endless
pub mod Program
mod Tests
use osisp_labs.Common.{
  ◌>>=◌, ℕ, zero, suc, Bool, true, false, ◌&&◌, ◌||◌, not, Option, none, some, List, [], ◌∷◌, ◌++◌,
  ◌==◌, if◌then◌else◌, take,
}

-- What the `switch` tells apart.
pub data Kind : Type 0 where
  directory link regular other : Kind

pub record FileSystem : Type 0 where
  pub scandir : Bool → List ℕ → Option (List (List ℕ))
  pub lstat : List ℕ → Option Kind

pub record Options : Type 0 where
  pub l_opt : Bool
  pub d_opt : Bool
  pub f_opt : Bool
  pub s_opt : Bool

abbrev pub Line : Type 0
Line = Kind × List ℕ

-- "." and ".."
unfoldable pub is_dots : List ℕ → Bool
is_dots [] = false
is_dots (a ∷ []) = a == b'.'
is_dots (a ∷ b ∷ []) = a == b'.' && b == b'.'
is_dots (a ∷ b ∷ c ∷ name) = false

abbrev pub joined : List ℕ → List ℕ → List ℕ
joined path name = path ++ (b'/' ∷ name)

-- `fullpath`, in 256 bytes.
abbrev pub full_path : List ℕ → List ℕ → List ℕ
full_path path name = take 255 (joined path name)

-- Is an entry of that kind printed?
unfoldable pub shows : Options → Kind → Bool
shows o directory = o.d_opt
shows o link = o.l_opt
shows o regular = o.f_opt
shows o other = false

-- The names that the loop goes through: none if `scandir` fails.
abbrev pub names_in : Option (List (List ℕ)) → List (List ℕ)
names_in none = []
names_in (some names) = names

abbrev pub line_of : Options → Kind → List ℕ → List Line
line_of o kind path = if shows o kind then (kind, path) ∷ [] else []

-- The body of the loop for a path; `below` is the walk of a directory.
unfoldable pub walk_entry :
    Options → (List ℕ → Option (List Line)) → List ℕ → Option Kind → Option (List Line)
unfolding shows
walk_entry o below path none = some []
walk_entry o below path (some directory) = do
  lines ← below path
  some (line_of o directory path ++ lines)
walk_entry o below path (some link) = some (line_of o link path)
walk_entry o below path (some regular) = some (line_of o regular path)
walk_entry o below path (some other) = some []

unfoldable pub walk_names :
    FileSystem
    → Options
    → (List ℕ → Option (List Line))
    → List ℕ
    → List (List ℕ)
    → Option (List Line)
unfolding is_dots walk_entry
walk_names fs o below path [] = some []
walk_names fs o below path (name ∷ names) = do
  let full = full_path path name
  here ← if is_dots name then some [] else walk_entry o below full (fs.lstat full)
  rest ← walk_names fs o below path names
  some (here ++ rest)

-- `dirwalkStdout`. `none`: it is not done after so many calls one in the other.
unfoldable pub dirwalk_stdout : FileSystem → Options → ℕ → List ℕ → Option (List Line)
unfolding walk_names
dirwalk_stdout fs o zero path = none
dirwalk_stdout fs o (suc fuel) path =
    walk_names fs o (dirwalk_stdout fs o fuel) path (names_in (fs.scandir (o.s_opt) path))

unfoldable pub set_option : ℕ → Options → Option Options
set_option c o =
    if c == b'l'
    then some (record o { l_opt = true })
    else if c == b'd'
    then some (record o { d_opt = true })
    else if c == b'f'
    then some (record o { f_opt = true })
    else if c == b's'
    then some (record o { s_opt = true })
    else none

-- The letters that `main` prints for its options, each on a line: up to the first wrong one.
unfoldable pub echoed : List ℕ → List ℕ
echoed [] = []
echoed (c ∷ letters) =
    let rest = echoed letters in
    if c == b'l' || c == b'd' || c == b'f' || c == b's' then c ∷ rest else []

-- The letters that `getopt_long` gives, and the options then. `none`: the program ends at another.
unfoldable pub read_options : List ℕ → Options → Option Options
unfolding set_option
read_options [] o = some o
read_options (c ∷ letters) o = set_option c o >>= read_options letters

-- Without a kind all are printed.
unfoldable pub with_kinds : Options → Options
with_kinds o =
    if o.l_opt || o.d_opt || o.f_opt
    then o
    else record o { l_opt = true; d_opt = true; f_opt = true }

abbrev pub no_sign : List ℕ → Bool
no_sign [] = true
no_sign (c ∷ arg) = not (c == b'-')

-- The one argument that is no option, if there is one. `none`: there are more.
unfoldable pub path_in : List (List ℕ) → Option (List ℕ) → Option (Option (List ℕ))
path_in [] path = some path
path_in (arg ∷ args) none = path_in args (if no_sign arg then some arg else none)
path_in (arg ∷ args) (some path) =
    let rest = path_in args (some path) in if no_sign arg then none else rest

abbrev pub no_options : Options
no_options = record { l_opt = false; d_opt = false; f_opt = false; s_opt = false }

abbrev or_here : Option (List ℕ) → List ℕ
or_here none = b'.' ∷ b'/' ∷ []
or_here (some path) = path

-- What `main` prints: the letters, "incorrect syntax", and the lines of the walk.
pub record Printed : Type 0 where
  pub letters : List ℕ
  pub incorrect_syntax : Bool
  pub lines : List Line

-- `main`: nothing is walked for a wrong option or for two paths.
unfoldable pub run : FileSystem → ℕ → List ℕ → List (List ℕ) → Option Printed
unfolding read_options with_kinds path_in dirwalk_stdout echoed
run fs fuel letters args =
    let shown = echoed letters in
    elim (read_options letters no_options) [
      | none ↦ some (record { letters = shown; incorrect_syntax = false; lines = [] })
      | some o ↦ elim (path_in args none) [
        | none ↦ some (record { letters = shown; incorrect_syntax = true; lines = [] })
        | some path ↦
            (dirwalk_stdout fs (with_kinds o) fuel (or_here path) >>= λ lines.
            some (record { letters = shown; incorrect_syntax = false; lines = lines }))
      ]
    ]
