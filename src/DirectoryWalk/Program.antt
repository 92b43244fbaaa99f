-- ===== src/DirectoryWalk/Program.antt =====
-- The options and the path of Lab1/Lab1.c, and the program as a whole.
use Prim.Native.Nat.{◌≤◌}
use osisp_labs.Common.{
  ℕ, ◌≡◌, ◌⊎◌, inl, inr, Bool-cases, subst, refl, ◌∙◌, sym, Bool, true, false, ◌||◌, none, some,
  List, [], ◌∷◌, ◌++◌, has,
}
use osisp_labs.DirectoryWalk.{
  FileSystem, Options, echoed, read_options, with_kinds, no_sign, no_options, path_in, run,
}
use osisp_labs.DirectoryWalk.Trees.{Forest, depth, report, HoldsAt}
use osisp_labs.DirectoryWalk.Report.{chosen, dirwalk_stdout-report}

abbrev pub AreLetters : List ℕ → Type 0
AreLetters [] = Unit
AreLetters (c ∷ cs) = ((c ≡ b'l') ⊎ ((c ≡ b'd') ⊎ ((c ≡ b'f') ⊎ (c ≡ b's')))) × AreLetters cs

-- The options that have their letter.
abbrev pub of_letters : List ℕ → Options
of_letters cs = record {
  l_opt = has b'l' cs;
  d_opt = has b'd' cs;
  f_opt = has b'f' cs;
  s_opt = has b's' cs;
}

abbrev added : Options → List ℕ → Options
added o cs = record {
  l_opt = o.l_opt || has b'l' cs;
  d_opt = o.d_opt || has b'd' cs;
  f_opt = o.f_opt || has b'f' cs;
  s_opt = o.s_opt || has b's' cs;
}

or_true : (b : Bool) → b || true ≡ true
or_true true = refl
or_true false = refl

or_false : (b : Bool) → b || false ≡ b
or_false true = refl
or_false false = refl

read_options_lem :
    (cs : List ℕ) (o : Options) → AreLetters cs → read_options cs o ≡ some (added o cs)
unfolding read_options has
read_options_lem [] o h =
    rw (or_false (o.l_opt), or_false (o.d_opt), or_false (o.f_opt), or_false (o.s_opt)) refl
read_options_lem (c ∷ cs) o (inl e, h) =
    rw e (read_options_lem cs (record o { l_opt = true }) h ∙ rw (or_true (o.l_opt)) refl)
read_options_lem (c ∷ cs) o (inr (inl e), h) =
    rw e (read_options_lem cs (record o { d_opt = true }) h ∙ rw (or_true (o.d_opt)) refl)
read_options_lem (c ∷ cs) o (inr (inr (inl e)), h) =
    rw e (read_options_lem cs (record o { f_opt = true }) h ∙ rw (or_true (o.f_opt)) refl)
read_options_lem (c ∷ cs) o (inr (inr (inr e)), h) =
    rw e (read_options_lem cs (record o { s_opt = true }) h ∙ rw (or_true (o.s_opt)) refl)

echoed_lem : (cs : List ℕ) → AreLetters cs → echoed cs ≡ cs
unfolding echoed
echoed_lem [] h = refl
echoed_lem (c ∷ cs) (inl e, h) = rw (e, echoed_lem cs h) refl
echoed_lem (c ∷ cs) (inr (inl e), h) = rw (e, echoed_lem cs h) refl
echoed_lem (c ∷ cs) (inr (inr (inl e)), h) = rw (e, echoed_lem cs h) refl
echoed_lem (c ∷ cs) (inr (inr (inr e)), h) = rw (e, echoed_lem cs h) refl

abbrev pub AreOptions : List (List ℕ) → Type 0
AreOptions [] = Unit
AreOptions (arg ∷ args) = (no_sign arg ≡ false) × AreOptions args

path_in_found :
    (args : List (List ℕ)) (path : List ℕ)
    → AreOptions args
    → path_in args (some path) ≡ some (some path)
unfolding path_in
path_in_found [] path h = refl
path_in_found (arg ∷ args) path (e, h) = rw e (path_in_found args path h)

path_in_lem :
    (before after : List (List ℕ)) (path : List ℕ)
    → AreOptions before
    → AreOptions after
    → no_sign path ≡ true
    → path_in (before ++ (path ∷ after)) none ≡ some (some path)
unfolding path_in
path_in_lem [] after path h k e = rw (path_in, e) (path_in_found after path k)
path_in_lem (arg ∷ before) after path (e1, h) k e =
    rw (path_in, e1) (path_in_lem before after path h k e)

with_kinds-s_opt : (o : Options) → (with_kinds o).s_opt ≡ o.s_opt
unfolding with_kinds
with_kinds-s_opt o = elim (Bool-cases (o.l_opt || o.d_opt || o.f_opt)) [
  | inl e ↦ rw e refl
  | inr e ↦ rw e refl
]

-- The program with one path among its options, of the letters l, d, f and s in any order and number,
-- ends and prints these letters, and then of the tree at the path what the letters choose, or all if they choose nothing, in
-- the order of the tree, if the depth of calls allows for the tree and no path in it has more than
-- 255 characters.
pub run-report :
    (letters : List ℕ) (before after : List (List ℕ)) (path : List ℕ) (f : Forest) (fs : FileSystem)
    (fuel : ℕ)
    → AreLetters letters
    → AreOptions before
    → AreOptions after
    → no_sign path ≡ true
    → HoldsAt fs (has b's' letters) path f
    → depth f ≤ fuel
    → run fs fuel letters (before ++ (path ∷ after))
      ≡ some (record {
        letters = letters;
        incorrect_syntax = false;
        lines = chosen (with_kinds (of_letters letters)) (report path f);
      })
unfolding run
run-report letters before after path f fs fuel h hb ha hp held k =
    let o = of_letters letters in
    let at_path : HoldsAt fs ((with_kinds o).s_opt) path f =
      subst (λ s. HoldsAt fs s path f) (sym (with_kinds-s_opt o)) held in
    rw
      (
        run,
        read_options_lem letters no_options h,
        path_in_lem before after path hb ha hp,
        echoed_lem letters h,
        dirwalk_stdout-report f fs (with_kinds o) fuel path at_path k,
      )
      refl
