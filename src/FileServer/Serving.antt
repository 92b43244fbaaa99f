-- ===== src/FileServer/Serving.antt =====
-- What one request does to the session of Lab8/server.c, and how many messages answer it.
use osisp_labs.Common.{
  ◌>>=◌, defined_from, ℕ, ◌≡◌, refl, ap, arith, subst, Bool, true, false, Bool-cases, inl, inr,
  Option, none, some, List, [], ◌∷◌, ◌++◌, length, ltb, if◌then◌else◌,
}
use osisp_labs.FileServer.{
  Command, quit, info, echo, cd, list, unknown, Input, Session, Entry, zeros, stamped, in_buffer,
  current_directory, entry_lines, word_done, replied, send_message, send_info_about_server, enter,
  change_directory, argument, target_path, send_directory_listing, c_string, copy_to, serve_as,
}
use mathlib.Core.Option.{some-injective}

pub in_buffer-fits : (size : ℕ) (s t : List ℕ) → in_buffer size s ≡ some t → t ≡ s
in_buffer-fits size s t e = elim (Bool-cases (ltb (length s) size)) [
  | inl h ↦ grind (arith, e, h)
  | inr h ↦ grind (arith, e, h)
]

-- One message, in a session that has the same directory.
abbrev One : Session → List (List ℕ) × Session × Bool → Bool → Type 0
One s (replies, s2, connected) stays =
    ((m : List ℕ) × (replies ≡ m ∷ [])) × (s2 ≡ record s { echo_buf = zeros }) × (connected ≡ stays)

-- How a request is answered: by one message; by the entries of the directory and the end of the
-- list; or by one message with the directory that the session has from then on.
abbrev pub Answer : Command → Input → Session → List (List ℕ) × Session × Bool → Type 0
Answer info i s r = One s r true
Answer quit i s r = One s r false
Answer echo i s r = One s r true
Answer unknown i s r = One s r true
Answer list i s (replies, s2, connected) =
    ((es : List Entry) × (i.entries ≡ some es) × (replies ≡ entry_lines es ++ (word_done ∷ [])))
    × (s2 ≡ record s { echo_buf = zeros })
    × (connected ≡ true)
Answer cd i s (replies, s2, connected) =
    (replies ≡ stamped i.now (current_directory ++ s2.dir_path) ∷ [])
    × (s2.echo_buf ≡ zeros)
    × (connected ≡ true)

returned-One :
    (s : Session) (o : Option (List ℕ)) (stays : Bool) (r : List (List ℕ) × Session × Bool)
    → (o >>= λ m. some (replied s (m ∷ []) stays)) ≡ some r
    → One s r stays
returned-One s o stays r e =
    let (m, sent, rest) = defined_from o (λ m. some (replied s (m ∷ []) stays)) r e in
    subst (λ r. One s r stays) (some-injective _ _ rest) ((m, refl), refl, refl)

moved-Answer :
    (i : Input) (s : Session) (o : Option (List ℕ × List ℕ)) (r : List (List ℕ) × Session × Bool)
    → ((d : List ℕ) (m : List ℕ) → o ≡ some (d, m) → m ≡ stamped i.now (current_directory ++ d))
    → (o >>= λ (dir, m). some (replied (record s { dir_path = dir }) (m ∷ []) true)) ≡ some r
    → Answer cd i s r
moved-Answer i s o r h e =
    let ((d, m), sent, rest) =
      defined_from o (λ (dir, m). some (replied (record s { dir_path = dir }) (m ∷ []) true)) r e in
    subst (Answer cd i s) (some-injective _ _ rest) (ap (λ m. m ∷ []) (h d m sent), refl, refl)

enter_lem :
    (i : Input) (dir_path temp_path d m : List ℕ)
    → enter i dir_path temp_path ≡ some (d, m)
    → m ≡ stamped i.now (current_directory ++ d)
unfolding enter send_message
enter_lem i dir_path temp_path d m e =
    let (dir, _, rest) =
      defined_from (in_buffer 100 (if i.entered then temp_path else dir_path)) _ (d, m) e in
    let (reply, sent, last) =
      defined_from (send_message i.now (current_directory ++ dir)) _ (d, m) rest in
    let both : (dir, reply) ≡ (d, m) = some-injective _ _ last in
    let fits : reply ≡ stamped i.now (current_directory ++ dir) = in_buffer-fits 100 _ _ sent in
    subst (λ (dir, reply). reply ≡ stamped i.now (current_directory ++ dir)) both fits

change_directory_lem :
    (i : Input) (command dir_path d m : List ℕ)
    → change_directory i command dir_path ≡ some (d, m)
    → m ≡ stamped i.now (current_directory ++ d)
unfolding change_directory
change_directory_lem i command dir_path d m e =
    let (new_dir, _, rest) =
      defined_from (argument 3 command) (λ n. target_path dir_path n >>= enter i dir_path) (d, m)
        e in
    let (t, _, rest2) =
      defined_from (target_path dir_path new_dir) (enter i dir_path) (d, m) rest in
    enter_lem i dir_path t d m rest2

listed-Answer :
    (i : Input) (s : Session) (o : Option (List Entry)) (r : List (List ℕ) × Session × Bool)
    → i.entries ≡ o
    → (send_directory_listing o >>= λ replies. some (replied s replies true)) ≡ some r
    → Answer list i s r
unfolding send_directory_listing
listed-Answer i s none r h e = absurd (cc)
listed-Answer i s (some es) r h e =
    subst (Answer list i s) (some-injective _ _ e) ((es, h, refl), refl, refl)

pub serve_as-Answer :
    (cmd : Command) (i : Input) (command : List ℕ) (s : Session)
    (r : List (List ℕ) × Session × Bool)
    → serve_as cmd i command s ≡ some r
    → Answer cmd i s r
unfolding serve_as
serve_as-Answer info i command s r e = returned-One s (send_info_about_server i) true r e
serve_as-Answer quit i command s r e =
    returned-One s (send_message i.now (b'B' ∷ b'Y' ∷ b'E' ∷ [])) false r e
serve_as-Answer echo i command s r e =
    let (text, _, rest) = defined_from (argument 5 command) _ r e in
    returned-One s (send_message i.now (c_string (copy_to text s.echo_buf))) true r rest
serve_as-Answer cd i command s r e =
    moved-Answer i s (change_directory i command s.dir_path) r
      (change_directory_lem i command s.dir_path) e
serve_as-Answer list i command s r e = listed-Answer i s i.entries r refl e
serve_as-Answer unknown i command s r e = returned-One s _ true r e
