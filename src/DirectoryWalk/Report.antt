-- ===== src/DirectoryWalk/Report.antt =====
-- The walk of Lab1/Lab1.c prints what is chosen of the whole tree, in the order of the tree.
use osisp_labs.Common.{
  ◌>>=◌, ℕ, zero, suc, ◌≡◌, ◌≤◌, ◌<◌, refl, sym, ap, subst, ◌∙◌, false, Bool-cases, inl, inr,
  Option, none, some, List, [], ◌∷◌, ◌++◌, if◌then◌else◌, length, take, arith,
}
use osisp_labs.DirectoryWalk.{
  Kind, directory, link, regular, other, FileSystem, Options, Line, is_dots, joined, full_path,
  names_in, shows, line_of, walk_entry, walk_names, dirwalk_stdout,
}
use osisp_labs.DirectoryWalk.Trees.{
  Node, Forest, unreadable, folder, leaf, bare, entry, IsLeaf, depth, depth_node, without_dots,
  names_of, report, report_node, Holds, HoldsNode, HoldsAt,
}

-- The lines of the kinds that are to be printed.
unfoldable pub chosen : Options → List Line → List Line
chosen o [] = []
chosen o ((kind, path) ∷ lines) =
    let rest = chosen o lines in if shows o kind then (kind, path) ∷ rest else rest

chosen-append : (o : Options) (xs ys : List Line) → chosen o (xs ++ ys) ≡ chosen o xs ++ chosen o ys
unfolding chosen
chosen-append o [] ys = refl
chosen-append o ((kind, path) ∷ xs) ys = elim (Bool-cases (shows o kind)) [
  | inl e ↦ rw (e, chosen-append o xs ys) refl
  | inr e ↦ rw (e, chosen-append o xs ys) refl
]

chosen-line_of :
    (o : Options) (kind : Kind) (path : List ℕ) (lines : List Line)
    → chosen o ((kind, path) ∷ lines) ≡ line_of o kind path ++ chosen o lines
unfolding chosen
chosen-line_of o kind path lines = elim (Bool-cases (shows o kind)) [
  | inl e ↦ rw e refl
  | inr e ↦ rw e refl
]

unfoldable pub NoDots : List (List ℕ) → Type 0
NoDots [] = Unit
NoDots (name ∷ names) = (is_dots name ≡ false) × NoDots names

pub without_dots-NoDots : (names : List (List ℕ)) → NoDots (without_dots names)
unfolding without_dots NoDots
without_dots-NoDots [] = tt
without_dots-NoDots (name ∷ names) = elim (Bool-cases (is_dots name)) [
  | inl e ↦ rw e (without_dots-NoDots names)
  | inr e ↦ rw e (e, without_dots-NoDots names)
]

right_unit {ℓ} : {A : Type ℓ} (o : Option A) → (o >>= λ a. some a) ≡ o
right_unit none = refl
right_unit (some a) = refl

-- "." and ".." make no difference.
pub walk_names-without_dots :
    (fs : FileSystem) (o : Options) (below : List ℕ → Option (List Line)) (path : List ℕ)
    (names : List (List ℕ))
    → walk_names fs o below path names ≡ walk_names fs o below path (without_dots names)
unfolding walk_names without_dots
walk_names-without_dots fs o below path [] = refl
walk_names-without_dots fs o below path (name ∷ names) =
    let rest = walk_names-without_dots fs o below path names in
    elim (Bool-cases (is_dots name)) [
      | inl e ↦ rw e (right_unit (walk_names fs o below path names) ∙ rest)
      | inr e ↦ rw (rest, e) (rw e refl)
    ]

take_all : (n : ℕ) (s : List ℕ) → length s ≤ n → take n s ≡ s
take_all zero [] h = refl
take_all zero (c ∷ s) h = absurd (omega arith)
take_all (suc n) [] h = refl
take_all (suc n) (c ∷ s) h = ap (◌∷◌ c) (take_all n s (omega arith))

depth-pos : (f : Forest) → 0 < depth f
unfolding depth
depth-pos bare = omega arith
depth-pos (entry name n f) = omega arith

leaf_lem :
    (kind : Kind) (o : Options) (below : List ℕ → Option (List Line)) (path : List ℕ)
    → IsLeaf kind
    → walk_entry o below path (some kind) ≡ some (chosen o ((kind, path) ∷ []))
unfolding walk_entry shows chosen
leaf_lem directory o below path h = absurd h
leaf_lem link o below path h = refl
leaf_lem regular o below path h = refl
leaf_lem other o below path h = refl

-- A directory with that content.
content_lem :
    (f : Forest) (fs : FileSystem) (o : Options) (fuel : ℕ) (path : List ℕ) (lines : List Line)
    → without_dots (names_in (fs.scandir (o.s_opt) path)) ≡ names_of f
    → walk_names fs o (dirwalk_stdout fs o fuel) path (names_of f) ≡ some lines
    → dirwalk_stdout fs o (suc fuel) path ≡ some lines
unfolding dirwalk_stdout
content_lem f fs o fuel path lines names e =
    walk_names-without_dots fs o (dirwalk_stdout fs o fuel) path
      (names_in (fs.scandir (o.s_opt) path))
    ∙ ap (walk_names fs o (dirwalk_stdout fs o fuel) path) names
    ∙ e

mutual
  unfolding dirwalk_stdout Holds depth report names_of NoDots chosen

  entry_lem :
      (n : Node) (fs : FileSystem) (o : Options) (fuel : ℕ) (path : List ℕ)
      → HoldsNode fs (o.s_opt) path n
      → depth_node n ≤ fuel
      → walk_entry o (dirwalk_stdout fs o fuel) path (fs.lstat path)
        ≡ some (chosen o (report_node path n))
  entry_lem unreadable fs o fuel path h k = rw h refl
  entry_lem (leaf kind) fs o fuel path (e, h) k =
      rw e (leaf_lem kind o (dirwalk_stdout fs o fuel) path h)
  entry_lem (folder f) fs o zero path h k = absurd (omega (arith, depth-pos f))
  entry_lem (folder f) fs o (suc fuel) path (e, (names, h)) k =
      let inside : walk_names fs o (dirwalk_stdout fs o fuel) path (names_of f)
          ≡ some (chosen o (report path f)) =
        names_lem f fs o fuel path h
          (subst NoDots names (without_dots-NoDots (names_in (fs.scandir (o.s_opt) path)))) k in
      rw (e, content_lem f fs o fuel path (chosen o (report path f)) names inside)
        (ap some (sym (chosen-line_of o directory path (report path f))))

  names_lem :
      (f : Forest) (fs : FileSystem) (o : Options) (fuel : ℕ) (path : List ℕ)
      → Holds fs (o.s_opt) path f
      → NoDots (names_of f)
      → depth f ≤ suc fuel
      → walk_names fs o (dirwalk_stdout fs o fuel) path (names_of f)
        ≡ some (chosen o (report path f))
  names_lem bare fs o fuel path h d k = refl
  names_lem (entry name n f) fs o fuel path (size, h, hs) (d, ds) k =
      let whole : full_path path name ≡ joined path name =
        take_all 255 (joined path name) (omega arith) in
      let here = entry_lem n fs o fuel (joined path name) h (omega arith) in
      let rest = names_lem f fs o fuel path hs ds (omega arith) in
      rw (d, whole, here, rest)
        (ap some (sym (chosen-append o (report_node (joined path name) n) (report path f))))

-- The walk ends and prints, of all that is in the tree below the path, what the options choose, in
-- the order of the tree, if the depth of calls allows for the tree and no path in it has more than
-- 255 characters.
pub dirwalk_stdout-report :
    (f : Forest) (fs : FileSystem) (o : Options) (fuel : ℕ) (path : List ℕ)
    → HoldsAt fs (o.s_opt) path f
    → depth f ≤ fuel
    → dirwalk_stdout fs o fuel path ≡ some (chosen o (report path f))
dirwalk_stdout-report f fs o zero path h k = absurd (omega (arith, depth-pos f))
dirwalk_stdout-report f fs o (suc fuel) path (names, h) k =
    content_lem f fs o fuel path (chosen o (report path f)) names (
      names_lem f fs o fuel path h
        (subst NoDots names (without_dots-NoDots (names_in (fs.scandir (o.s_opt) path)))) k)
