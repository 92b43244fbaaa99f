-- ===== src/FileClient/Answers.antt =====
-- What the client of Lab8 is after the answer to a command. It is in step with the server when nothing
-- is left unread and its prompt shows the directory of the server.
use osisp_labs.Common.{
  ◌>>=◌, defined_from, true, ℕ, suc, ◌+◌, ◌-◌, ◌≡◌, refl, ap, subst, ◌∙◌, sym, Bool, false, some,
  List, [], ◌∷◌, ◌++◌, arith, length, ltb, length-append, take-append,
}
use osisp_labs.FileServer.{
  Command, quit, info, echo, cd, list, unknown, Input, Session, Entry, zeros, stamped, in_buffer,
  current_directory, entry_lines, word_done, starts_with,
}
use osisp_labs.FileServer.Serving.{Answer, in_buffer-fits}
use osisp_labs.FileClient.{
  one, listing, directory, Client, Round, receive, new_path, get_list_directory,
  get_response_from_server,
}
use osisp_labs.FileClient.Requests.{reading_of}
use mathlib.Core.Option.{some-injective}

-- What the client shows of a directory.
abbrev pub prompt : List ℕ → List ℕ
prompt dir_path = b' ' ∷ (dir_path ++ (b'>' ∷ b' ' ∷ []))

pub record InStep (c : Client) (s : Session) : Type 0 where
  pub all_read : c.unread ≡ []
  pub shown : c.path ≡ prompt s.dir_path
  pub cleared : s.echo_buf ≡ zeros

-- No line of a list looks like its end.
abbrev pub NoneDone : List (List ℕ) → Type 0
NoneDone [] = Unit
NoneDone (m ∷ ms) = (starts_with m word_done ≡ false) × NoneDone ms

-- A line as `fgets` gives it, a time of 23 characters, and a directory without such names.
pub record IsRound (r : Round) : Type 0 where
  pub text : List ℕ
  pub typed : r.line ≡ text ++ (b'\n' ∷ [])
  pub stamp : length r.input.now ≡ 23
  pub listed : (es : List Entry) → r.input.entries ≡ some es → NoneDone (entry_lines es)

pub get_list_directory-lines :
    (ms rest : List (List ℕ)) (m : List ℕ)
    → NoneDone ms
    → starts_with m word_done ≡ true
    → get_list_directory (ms ++ (m ∷ rest)) ≡ some (ms, rest)
unfolding get_list_directory
get_list_directory-lines [] rest m h e = rw e refl
get_list_directory-lines (n ∷ ms) rest m (plain, h) e =
    rw (plain, get_list_directory-lines ms rest m h e) refl

-- The client skips 18 of the 19 characters before the directory, and so keeps a space.
pub new_path-stamped :
    (now dir : List ℕ)
    → length now ≡ 23
    → new_path (stamped now (current_directory ++ dir)) ≡ in_buffer 100 (prompt dir)
unfolding new_path
new_path-stamped now dir h =
    let size : length (stamped now (current_directory ++ dir)) ≡ length dir + 45 =
      omega (arith, h, length-append dir (b' ' ∷ b'-' ∷ b' ' ∷ now)) in
    let enough : ltb (length dir + 45) 44 ≡ false = ground arith in
    let left : length dir + 45 - 18 - 26 ≡ suc (length dir) = omega arith in
    rw (size, enough, left, take-append dir (b' ' ∷ b'-' ∷ b' ' ∷ now) (length dir) refl) refl

pub receive-one :
    (c : Client) (m : List ℕ)
    → c.unread ≡ []
    → receive one (m ∷ []) c ≡ some (record c { unread = []; printed = c.printed ++ (m ∷ []) })
unfolding receive get_response_from_server
receive-one c m h = rw h refl

pub receive-listing :
    (c : Client) (ms : List (List ℕ))
    → c.unread ≡ []
    → NoneDone ms
    → receive listing (ms ++ (word_done ∷ [])) c
      ≡ some (record c { unread = []; printed = c.printed ++ ms })
unfolding receive starts_with
receive-listing c ms h n = rw (h, get_list_directory-lines ms [] word_done n refl) refl

pub receive-directory :
    (c : Client) (now dir : List ℕ)
    → c.unread ≡ []
    → length now ≡ 23
    → receive directory (stamped now (current_directory ++ dir) ∷ []) c
      ≡ (in_buffer 100 (prompt dir) >>= λ path. some (record c { unread = []; path = path }))
unfolding receive get_response_from_server
receive-directory c now dir h n = rw (h, new_path-stamped now dir n) refl

-- What the client is after the answer to a command.
abbrev pub After :
    Command → Input → Client → Session → List (List ℕ) × Session × Bool → Client → Type 0
After cmd i c s (replies, s2, connected) c2 =
    InStep c s
    → Answer cmd i s (replies, s2, connected)
    → receive ((reading_of cmd).0) replies c ≡ some c2
    → InStep c2 s2 × (connected ≡ (reading_of cmd).1)

after_one :
    (c c2 : Client) (s s2 : Session) (replies : List (List ℕ))
    → InStep c s
    → ((m : List ℕ) × (replies ≡ m ∷ []))
    → s2 ≡ record s { echo_buf = zeros }
    → receive one replies c ≡ some c2
    → InStep c2 s2
after_one c c2 s s2 replies h (m, e1) e2 e =
    let got : some (record c { unread = []; printed = c.printed ++ (m ∷ []) }) ≡ some c2 =
      sym (receive-one c m h.all_read) ∙ ap (λ r. receive one r c) (sym e1) ∙ e in
    subst (λ c2. InStep c2 s2) (some-injective _ _ got)
      (subst (InStep (record c { unread = []; printed = c.printed ++ (m ∷ []) })) (sym e2)
        (record { all_read = refl; shown = h.shown; cleared = refl }))

after_listing :
    (i : Input) (c c2 : Client) (s s2 : Session) (es : List Entry) (replies : List (List ℕ))
    → InStep c s
    → NoneDone (entry_lines es)
    → replies ≡ entry_lines es ++ (word_done ∷ [])
    → s2 ≡ record s { echo_buf = zeros }
    → receive listing replies c ≡ some c2
    → InStep c2 s2
after_listing i c c2 s s2 es replies h n e1 e2 e =
    let got : some (record c { unread = []; printed = c.printed ++ entry_lines es }) ≡ some c2 =
      sym (receive-listing c (entry_lines es) h.all_read n)
      ∙ ap (λ r. receive listing r c) (sym e1)
      ∙ e in
    subst (λ c2. InStep c2 s2) (some-injective _ _ got)
      (subst (InStep (record c { unread = []; printed = c.printed ++ entry_lines es })) (sym e2)
        (record { all_read = refl; shown = h.shown; cleared = refl }))

after_directory :
    (i : Input) (c c2 : Client) (s s2 : Session) (replies : List (List ℕ))
    → InStep c s
    → length i.now ≡ 23
    → replies ≡ stamped i.now (current_directory ++ s2.dir_path) ∷ []
    → s2.echo_buf ≡ zeros
    → receive directory replies c ≡ some c2
    → InStep c2 s2
after_directory i c c2 s s2 replies h n e1 e2 e =
    let got : (in_buffer 100 (prompt s2.dir_path) >>= λ path.
    some (record c { unread = []; path = path }))
        ≡ some c2 =
      sym (receive-directory c i.now s2.dir_path h.all_read n)
      ∙ ap (λ r. receive directory r c) (sym e1)
      ∙ e in
    let (path, fits, last) = defined_from (in_buffer 100 (prompt s2.dir_path)) _ c2 got in
    subst (λ c2. InStep c2 s2) (some-injective _ _ last)
      (record { all_read = refl; shown = in_buffer-fits 100 _ _ fits; cleared = e2 })

pub after :
    (cmd : Command) (i : Input) (c c2 : Client) (s s2 : Session) (replies : List (List ℕ))
    (connected : Bool)
    → length i.now ≡ 23
    → ((es : List Entry) → i.entries ≡ some es → NoneDone (entry_lines es))
    → After cmd i c s (replies, s2, connected) c2
after quit i c c2 s s2 r b n l h (m, e2, e3) e = (after_one c c2 s s2 r h m e2 e, e3)
after info i c c2 s s2 r b n l h (m, e2, e3) e = (after_one c c2 s s2 r h m e2 e, e3)
after echo i c c2 s s2 r b n l h (m, e2, e3) e = (after_one c c2 s s2 r h m e2 e, e3)
after unknown i c c2 s s2 r b n l h (m, e2, e3) e = (after_one c c2 s s2 r h m e2 e, e3)
after cd i c c2 s s2 r b n l h (m, e2, e3) e = (after_directory i c c2 s s2 r h n m e2 e, e3)
after list i c c2 s s2 r b n l h ((es, opened, m), e2, e3) e =
    (after_listing i c c2 s s2 es r h (l es opened) m e2 e, e3)
