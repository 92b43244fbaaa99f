-- ===== src/DirectoryWalk/Tests.antt =====
-- A directory with a file and a directory that holds a link, walked by Lab1/Lab1.c.
use osisp_labs.Common.{
  ℕ, ◌≡◌, refl, inl, inr, has, false, Option, none, some, List, [], ◌∷◌, if◌then◌else◌, ◌==◌, arith,
  replicate,
}
use osisp_labs.DirectoryWalk.{
  Kind, directory, link, regular, FileSystem, shows, with_kinds, dirwalk_stdout, run, no_options,
}
use osisp_labs.DirectoryWalk.Trees.{
  Forest, folder, leaf, bare, entry, report, without_dots, HoldsAt, Holds, depth, names_of,
}
use osisp_labs.DirectoryWalk.Report.{chosen}
use osisp_labs.DirectoryWalk.Endless.{dirwalk_stdout_endless}
use osisp_labs.DirectoryWalk.Program.{run-report}

-- "t" has "." and the file "f" and the directory "d"; "t/d" has the link "l".
abbrev in_t : List ℕ → Option (List (List ℕ))
in_t (c ∷ []) = some ((b'.' ∷ []) ∷ (b'f' ∷ []) ∷ (b'd' ∷ []) ∷ [])
in_t (c ∷ s ∷ e ∷ []) = some ((b'l' ∷ []) ∷ [])
in_t _ = none

abbrev kind_in_t : List ℕ → Option Kind
kind_in_t (c ∷ s ∷ e ∷ []) = if e == b'f' then some regular else some directory
kind_in_t (c ∷ s ∷ e ∷ t ∷ l ∷ []) = some link
kind_in_t _ = none

abbrev small : FileSystem
small = record { scandir = λ sorted. in_t; lstat = kind_in_t }

abbrev tree : Forest
tree =
    entry (b'f' ∷ []) (leaf regular)
      (entry (b'd' ∷ []) (folder (entry (b'l' ∷ []) (leaf link) bare)) bare)

small-Holds : HoldsAt small false (b't' ∷ []) tree
unfolding Holds without_dots names_of
small-Holds = (
  refl,
  (omega arith, (refl, tt), (omega arith, (refl, (refl, (omega arith, (refl, tt), tt))), tt)),
)

run-report_example :
    run small 2 (b'd' ∷ b'l' ∷ []) ((b'-' ∷ b'd' ∷ b'l' ∷ []) ∷ (b't' ∷ []) ∷ [])
    ≡ some (record {
      letters = b'd' ∷ b'l' ∷ [];
      incorrect_syntax = false;
      lines =
          (directory, b't' ∷ b'/' ∷ b'd' ∷ []) ∷ (link, b't' ∷ b'/' ∷ b'd' ∷ b'/' ∷ b'l' ∷ []) ∷ [];
    })
unfolding chosen report shows with_kinds has depth
run-report_example =
    run-report (b'd' ∷ b'l' ∷ []) ((b'-' ∷ b'd' ∷ b'l' ∷ []) ∷ []) [] (b't' ∷ []) tree small 2
      (inr (inl refl), (inl refl, tt)) (refl, tt) tt refl small-Holds (omega arith)

-- A directory whose path has 255 characters, with one name.
abbrev deep : FileSystem
deep = record { scandir = λ sorted path. some ((b'a' ∷ []) ∷ []); lstat = λ path. some directory }

dirwalk_stdout_endless_example : dirwalk_stdout deep no_options 3 (replicate 255 b'x') ≡ none
unfolding without_dots
dirwalk_stdout_endless_example =
    dirwalk_stdout_endless deep no_options (replicate 255 b'x') (b'a' ∷ []) [] refl refl refl 3
