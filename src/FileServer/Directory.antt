-- ===== src/FileServer/Directory.antt =====
-- Where `changeDirectory` of Lab8/server.c goes for a name and for "..".
use osisp_labs.Common.{
  has, has_inv, ℕ, suc, ◌+◌, ◌≡◌, refl, ap, false, some, List, [], ◌∷◌, ◌++◌, length, arith, ◌==◌,
  length-append, Bool-cases, inl, inr,
}
use osisp_labs.FileServer.{target_path, starts_with}
use osisp_labs.FileServer.Strings.{cut_last-behind}

-- A name that is no other way to write a directory: without '/', and not starting with '.'.
abbrev pub IsName : List ℕ → Type 0
IsName name = (has b'/' name ≡ false) × (starts_with name (b'.' ∷ []) ≡ false)

pub empty-IsName : IsName []
unfolding has starts_with
empty-IsName = (refl, refl)

no_dots :
    (name rest : List ℕ)
    → starts_with name (b'.' ∷ []) ≡ false
    → starts_with name (b'.' ∷ rest) ≡ false
unfolding starts_with
no_dots [] rest h = refl
no_dots (c ∷ name) rest h = elim (Bool-cases (c == b'.')) [
  | inl e ↦ absurd (grind (arith, h, e))
  | inr e ↦ rw e refl
]

no_slash : (name rest : List ℕ) → has b'/' name ≡ false → starts_with name (b'/' ∷ rest) ≡ false
unfolding starts_with
no_slash [] rest h = refl
no_slash (c ∷ name) rest h =
    let (d, rest) = has_inv b'/' c name h in
    let e : (c == b'/') ≡ false = ground (arith, d) in rw e refl

pub target_path-name :
    (dir name : List ℕ) → IsName name → target_path dir name ≡ some (dir ++ (b'/' ∷ name))
unfolding target_path
target_path-name dir name (slash, dot) =
    rw (no_slash name [] slash, no_dots name (b'.' ∷ []) dot, dot) refl

-- cd into a directory by its name and then cd .. gives the path from which one came.
pub target_path-up :
    (dir name : List ℕ)
    → IsName name
    → target_path (dir ++ (b'/' ∷ name)) (b'.' ∷ b'.' ∷ []) ≡ some dir
unfolding target_path starts_with
target_path-up dir name (slash, dot) =
    let size : length (dir ++ (b'/' ∷ name)) ≡ suc (length dir + length name) =
      omega (arith, length-append dir (b'/' ∷ name)) in
    ap some (
      rw size (
        cut_last-behind dir name (length dir + length name) (length name) slash refl (omega arith)))
