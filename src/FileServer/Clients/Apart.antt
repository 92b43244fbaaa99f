-- ===== src/FileServer/Clients/Apart.antt =====
-- Several clients of Lab8/server.c whose start directory is absolute: nobody sees the others,
-- though chdir moves the one directory of the process.
use mathlib.Core.Option.{some-injective}
use osisp_labs.Common.{
  either_when, ◌>>=◌, defined_from, ℕ, zero, suc, ◌≡◌, refl, ap, ap₂, sym, subst, ◌∙◌, ◌⊎◌, inl,
  inr, arith, Bool, true, Bool-cases, Option-cases, Option, none, some, List, [], ◌∷◌, ◌++◌, ◌==◌,
  length, take, get_or, if◌then◌else◌,
}
use osisp_labs.FileServer.{
  current_directory, send_message, Command, quit, info, echo, cd, list, unknown, Input, Session,
  zeros, in_buffer, starts_with, cut_last, target_path, argument, enter, change_directory,
  parse_command, serve_as, serve,
}
use osisp_labs.FileServer.Serving.{in_buffer-fits, serve_as-Answer}
use osisp_labs.FileServer.Clients.{World, is_some, tried_path, moved, input_at, round}

abbrev pub IsAbsolute : List ℕ → Type 0
IsAbsolute [] = ⊥
IsAbsolute (c ∷ path) = c ≡ b'/'

-- An absolute path means the same in every directory, and an empty one leads nowhere.
pub record IsRooted (w : World) : Type 0 where
  pub chdir_absolute : (a b path : List ℕ) → IsAbsolute path → w.chdir a path ≡ w.chdir b path
  pub opendir_absolute : (a b path : List ℕ) → IsAbsolute path → w.opendir a path ≡ w.opendir b path
  pub chdir_empty : (a : List ℕ) → w.chdir a [] ≡ none

append-IsAbsolute : (a b : List ℕ) → IsAbsolute a → IsAbsolute (a ++ b)
append-IsAbsolute [] b h = absurd h
append-IsAbsolute (c ∷ a) b h = h

abbrev IsCut : List ℕ → Type 0
IsCut path = (path ≡ []) ⊎ IsAbsolute path

take-IsCut : (n : ℕ) (path : List ℕ) → IsAbsolute path → IsCut (take n path)
take-IsCut n [] h = absurd h
take-IsCut zero (c ∷ path) h = inl refl
take-IsCut (suc n) (c ∷ path) h = inr h

cut_last-IsCut : (n : ℕ) (path : List ℕ) → IsAbsolute path → IsCut (cut_last n path)
unfolding cut_last
cut_last-IsCut zero path h = inr h
cut_last-IsCut (suc n) path h = elim (Bool-cases (get_or path n 0 == b'/')) [
  | inl e ↦ rw e (take-IsCut n path h)
  | inr e ↦ rw e (cut_last-IsCut n path h)
]

-- From an absolute path the server tries an absolute one, or the empty one.
target_path-IsCut :
    (dir new_dir t : List ℕ) → IsAbsolute dir → target_path dir new_dir ≡ some t → IsCut t
unfolding target_path
target_path-IsCut dir new_dir t h e = elim (Bool-cases (starts_with new_dir (b'/' ∷ []))) [
  | inl slash ↦ absurd (ground (arith, e, slash))
  | inr relative ↦ elim (Bool-cases (starts_with new_dir (b'.' ∷ b'.' ∷ []))) [
    | inl up ↦
        let same : cut_last (length dir) dir ≡ t = ground (arith, e, relative, up) in
        subst IsCut same (cut_last-IsCut (length dir) dir h)
    | inr no_up ↦ elim (Bool-cases (starts_with new_dir (b'.' ∷ []))) [
      | inl here ↦
          let same : dir ≡ t = ground (arith, e, relative, no_up, here) in subst IsCut same (inr h)
      | inr name ↦
          let same : dir ++ (b'/' ∷ new_dir) ≡ t = ground (arith, e, relative, no_up, name) in
          subst IsCut same (inr (append-IsAbsolute dir (b'/' ∷ new_dir) h))
    ]
  ]
]

module _ (w : World) (rooted : IsRooted w) where
  tried_same : (a b : List ℕ) (t : List ℕ) → IsCut t → w.chdir a t ≡ w.chdir b t
  tried_same a b t (inl e) =
      ap (w.chdir a) e ∙ rooted.chdir_empty a ∙ sym (ap (w.chdir b) e ∙ rooted.chdir_empty b)
  tried_same a b t (inr h) = rooted.chdir_absolute a b t h

  tried-IsCut :
      (command t : List ℕ) (s : Session)
      → IsAbsolute s.dir_path
      → tried_path command s ≡ some t
      → IsCut t
  tried-IsCut command t s h e =
      let (new_dir, _, found) = defined_from (argument 3 command) (target_path s.dir_path) t e in
      target_path-IsCut s.dir_path new_dir t h found

  -- A session with an absolute path goes where it goes whatever the directory of the process.
  moved_same :
      (a b command : List ℕ) (s : Session)
      → IsAbsolute s.dir_path
      → moved w a command s ≡ moved w b command s
  unfolding moved
  moved_same a b command s h =
      by_command (parse_command command) (Option-cases (tried_path command s))
    where
      by_command :
          (c : Command)
          → (tried_path command s ≡ none) ⊎ ((t : List ℕ) × (tried_path command s ≡ some t))
          → (elim c as (λ _. Option (List ℕ)) [
            | cd ↦ tried_path command s >>= w.chdir a
            | _ ↦ none
          ])
            ≡ (elim c as (λ _. Option (List ℕ)) [
              | cd ↦ tried_path command s >>= w.chdir b
              | _ ↦ none
            ])
      by_command cd (inl e) = rw e refl
      by_command cd (inr (t, e)) = rw e (tried_same a b t (tried-IsCut command t s h e))
      by_command quit o = refl
      by_command info o = refl
      by_command echo o = refl
      by_command list o = refl
      by_command unknown o = refl

  -- Neither does the round of its thread depend on it.
  pub round_same :
      (a b now command : List ℕ) (s : Session)
      → IsAbsolute s.dir_path
      → round w a now command s ≡ round w b now command s
  unfolding round
  round_same a b now command s h =
      ap₂
        (λ m es.
          serve (record { now = now; info = w.info_file; entered = is_some m; entries = es })
            command s)
        (moved_same a b command s h) (rooted.opendir_absolute a b s.dir_path h)

  -- A path that `chdir` has taken is absolute.
  entered-IsAbsolute :
      (a command t : List ℕ) (s : Session)
      → IsAbsolute s.dir_path
      → parse_command command ≡ cd
      → tried_path command s ≡ some t
      → is_some (moved w a command s) ≡ true
      → IsAbsolute t
  unfolding moved
  entered-IsAbsolute a command t s h is_cd tried e = elim (tried-IsCut command t s h tried) [
    | inl empty ↦
        let nowhere : moved w a command s ≡ none =
          ap
            (λ c. elim c as (λ _. Option (List ℕ)) [
              | cd ↦ tried_path command s >>= w.chdir a
              | _ ↦ none
            ])
            is_cd
          ∙ ap (λ o. o >>= w.chdir a) tried
          ∙ ap (w.chdir a) empty
          ∙ rooted.chdir_empty a in
        absurd (cc (nowhere, e))
    | inr absolute ↦ absolute
  ]

  cd-IsAbsolute :
      (i : Input) (command : List ℕ) (s : Session) (r : List (List ℕ) × Session × Bool)
      → IsAbsolute s.dir_path
      → ((t : List ℕ) → tried_path command s ≡ some t → i.entered ≡ true → IsAbsolute t)
      → serve_as cd i command s ≡ some r
      → IsAbsolute r.1.dir_path
  unfolding serve_as change_directory enter
  cd-IsAbsolute i command s r h taken e =
      let ((d, m), changed, rest) = defined_from (change_directory i command s.dir_path) _ r e in
      let (new_dir, asked, rest2) =
        defined_from (argument 3 command) (λ n. target_path s.dir_path n >>= enter i s.dir_path)
          (d, m) changed in
      let (t, found, rest3) =
        defined_from (target_path s.dir_path new_dir) (enter i s.dir_path) (d, m) rest2 in
      let (dir, fits, rest4) =
        defined_from (in_buffer 100 (if i.entered then t else s.dir_path)) _ (d, m) rest3 in
      let (reply, _, last) =
        defined_from (send_message i.now (current_directory ++ dir)) _ (d, m) rest4 in
      let tried : tried_path command s ≡ some t =
        ap (λ o. o >>= target_path s.dir_path) asked ∙ found in
      let chosen : dir ≡ (if i.entered then t else s.dir_path) = in_buffer-fits 100 _ _ fits in
      let kept : IsAbsolute (if i.entered then t else s.dir_path) =
        either_when IsAbsolute i.entered t s.dir_path (taken t tried) (λ _. h) in
      let same : dir ≡ d = ap (λ (x, _). x) (some-injective _ _ last) in
      subst (λ q. IsAbsolute q.1.dir_path) (some-injective _ _ rest)
        (subst IsAbsolute (sym chosen ∙ same) kept)

  other-IsAbsolute :
      (s s' : Session)
      → s' ≡ record s { echo_buf = zeros }
      → IsAbsolute s.dir_path
      → IsAbsolute s'.dir_path
  other-IsAbsolute s s' e h = subst (λ q. IsAbsolute q.dir_path) (sym e) h

  -- An absolute path stays absolute.
  pub round-IsAbsolute :
      (a now command : List ℕ) (s : Session) (r : List (List ℕ) × Session × Bool)
      → IsAbsolute s.dir_path
      → round w a now command s ≡ some r
      → IsAbsolute r.1.dir_path
  unfolding round serve
  round-IsAbsolute a now command s r h e = by_command (parse_command command) refl e
    where
      by_command :
          (c : Command)
          → parse_command command ≡ c
          → serve_as c (input_at w a now command s) command s ≡ some r
          → IsAbsolute r.1.dir_path
      by_command cd p e =
          cd-IsAbsolute (input_at w a now command s) command s r h
            (λ t tried taken. entered-IsAbsolute a command t s h p tried taken) e
      by_command quit p e =
          other-IsAbsolute s r.1 (serve_as-Answer quit (input_at w a now command s) command s r e).1
            h
      by_command info p e =
          other-IsAbsolute s r.1 (serve_as-Answer info (input_at w a now command s) command s r e).1
            h
      by_command echo p e =
          other-IsAbsolute s r.1 (serve_as-Answer echo (input_at w a now command s) command s r e).1
            h
      by_command list p e =
          other-IsAbsolute s r.1 (serve_as-Answer list (input_at w a now command s) command s r e).1
            h
      by_command unknown p e =
          other-IsAbsolute s r.1
            (serve_as-Answer unknown (input_at w a now command s) command s r e).1 h
