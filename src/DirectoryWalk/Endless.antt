-- ===== src/DirectoryWalk/Endless.antt =====
-- Where the walk of Lab1/Lab1.c does not end.
use osisp_labs.Common.{
  ℕ, zero, suc, ◌≡◌, refl, ap, subst, ◌∙◌, sym, false, Option, none, some, List, ◌∷◌, length,
  take-append,
}
use osisp_labs.DirectoryWalk.{
  directory, FileSystem, Options, Line, is_dots, full_path, names_in, walk_entry, walk_names,
  dirwalk_stdout,
}
use osisp_labs.DirectoryWalk.Trees.{without_dots}
use osisp_labs.DirectoryWalk.Report.{NoDots, without_dots-NoDots, walk_names-without_dots}

endless_entry :
    (fs : FileSystem) (o : Options) (below : List ℕ → Option (List Line)) (path name : List ℕ)
    (names : List (List ℕ))
    → full_path path name ≡ path
    → fs.lstat path ≡ some directory
    → is_dots name ≡ false
    → below path ≡ none
    → walk_names fs o below path (name ∷ names) ≡ none
unfolding walk_names walk_entry
endless_entry fs o below path name names whole e plain deep = rw (plain, whole, e, deep) refl

-- In a directory whose path has 255 characters, and which holds anything, the path of what it holds
-- is cut to its own; so the walk goes into it again and again, and no depth of calls is enough.
pub dirwalk_stdout_endless :
    (fs : FileSystem) (o : Options) (path name : List ℕ) (names : List (List ℕ))
    → length path ≡ 255
    → fs.lstat path ≡ some directory
    → without_dots (names_in (fs.scandir (o.s_opt) path)) ≡ name ∷ names
    → (fuel : ℕ) → dirwalk_stdout fs o fuel path ≡ none
unfolding dirwalk_stdout NoDots
dirwalk_stdout_endless fs o path name names h e held zero = refl
dirwalk_stdout_endless fs o path name names h e held (suc fuel) =
    let plain : NoDots (name ∷ names) =
      subst NoDots held (without_dots-NoDots (names_in (fs.scandir (o.s_opt) path))) in
    walk_names-without_dots fs o (dirwalk_stdout fs o fuel) path
      (names_in (fs.scandir (o.s_opt) path))
    ∙ ap (walk_names fs o (dirwalk_stdout fs o fuel) path) held
    ∙ endless_entry fs o (dirwalk_stdout fs o fuel) path name names
        (take-append path (b'/' ∷ name) 255 (sym h)) e (plain.0)
        (dirwalk_stdout_endless fs o path name names h e held fuel)
