-- ===== src/DirectoryWalk/Trees.antt =====
-- A tree of directories without regard to paths, what it means that a file system holds it, and the
-- list of all that is in it.
use Prim.Native.Nat.{max}
use osisp_labs.Common.{
  ℕ, suc, ◌≡◌, ◌<◌, Bool, none, some, List, [], ◌∷◌, ◌++◌, if◌then◌else◌, length,
}
use osisp_labs.DirectoryWalk.{Kind, directory, FileSystem, Line, is_dots, joined, names_in}

-- An entry that cannot be read, a directory, or something else.
mutual
  pub data Node : Type 0 where
    unreadable : Node
    folder : Forest → Node
    leaf : Kind → Node

  pub data Forest : Type 0 where
    bare : Forest
    entry : List ℕ → Node → Forest → Forest

-- The directories one in the other, the outermost too.
unfoldable mutual
  pub depth_node : Node → ℕ
  depth_node unreadable = 0
  depth_node (folder f) = depth f
  depth_node (leaf kind) = 0

  pub depth : Forest → ℕ
  depth bare = 1
  depth (entry name n f) = max (suc (depth_node n)) (depth f)

unfoldable pub without_dots : List (List ℕ) → List (List ℕ)
unfolding is_dots
without_dots [] = []
without_dots (name ∷ names) =
    let rest = without_dots names in if is_dots name then rest else name ∷ rest

unfoldable pub names_of : Forest → List (List ℕ)
names_of bare = []
names_of (entry name n f) = name ∷ names_of f

-- All that can be read, each directory before what it holds.
unfoldable mutual
  pub report_node : List ℕ → Node → List Line
  report_node path unreadable = []
  report_node path (folder f) = (directory, path) ∷ report path f
  report_node path (leaf kind) = (kind, path) ∷ []

  pub report : List ℕ → Forest → List Line
  report path bare = []
  report path (entry name n f) = report_node (joined path name) n ++ report path f

abbrev pub IsLeaf : Kind → Type 0
IsLeaf directory = ⊥
IsLeaf _ = Unit

-- What the system says of a path and of all paths below it; they have at most 255 characters, and
-- a leaf is no directory.
unfoldable mutual
  unfolding without_dots names_of

  pub HoldsNode : FileSystem → Bool → List ℕ → Node → Type 0
  HoldsNode fs s path unreadable = fs.lstat path ≡ none
  HoldsNode fs s path (folder f) =
      (fs.lstat path ≡ some directory)
      × ((without_dots (names_in (fs.scandir s path)) ≡ names_of f) × Holds fs s path f)
  HoldsNode fs s path (leaf kind) = (fs.lstat path ≡ some kind) × IsLeaf kind

  pub Holds : FileSystem → Bool → List ℕ → Forest → Type 0
  Holds fs s path bare = Unit
  Holds fs s path (entry name n f) =
      (length (joined path name) < 256) × HoldsNode fs s (joined path name) n × Holds fs s path f

-- The directory at the path has that content.
abbrev pub HoldsAt : FileSystem → Bool → List ℕ → Forest → Type 0
HoldsAt fs s path f = (without_dots (names_in (fs.scandir s path)) ≡ names_of f) × Holds fs s path f
