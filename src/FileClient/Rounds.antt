-- ===== src/FileClient/Rounds.antt =====
-- What single rounds of the client of Lab8 with its server give: an echo, a list, a change of the
-- directory.
use osisp_labs.Common.{
  ◌>>=◌, has, ℕ, ◌+◌, ◌<◌, ◌≡◌, refl, ap, ◌∙◌, Bool, true, false, some, List, [], ◌∷◌, ◌++◌, arith,
  if◌then◌else◌, length, ltb, length-append,
}
use osisp_labs.FileServer.{
  Input, Session, Entry, zeros, stamped, in_buffer, current_directory, entry_lines, word_done,
  word_echo, word_cd, word_list, starts_with, serve, serve_as, parse_command, target_path,
  send_message, enter, change_directory, send_directory_listing,
}
use osisp_labs.FileServer.Strings.{argument-stamped, c_string-copy_to}
use osisp_labs.FileClient.{
  Reading, one, listing, directory, classify, Client, Round, receive, exchange_as, main_round,
}
use osisp_labs.FileClient.Requests.{send_command_to_server-line}
use osisp_labs.FileClient.Answers.{
  prompt, NoneDone, receive-one, receive-listing, receive-directory,
}

-- A line that is typed.
abbrev pub typed : List ℕ → List ℕ → Input → Round
typed text now i = record { line = text ++ (b'\n' ∷ []); sent_at = now; input = i }

-- Client and server between two rounds.
abbrev pub between : List ℕ → List (List ℕ) → List ℕ → Client × Session
between path printed dir = (
  record { path = path; unread = []; printed = printed },
  record { dir_path = dir; echo_buf = zeros },
)

pub in_buffer-short : (size : ℕ) (s : List ℕ) → length s < size → in_buffer size s ≡ some s
in_buffer-short size s h = let fits : ltb (length s) size ≡ true = ground arith in rw fits refl

pub length-stamped : (now s : List ℕ) → length now ≡ 23 → length (stamped now s) ≡ length s + 26
length-stamped now s h = omega (arith, h, length-append s (b' ' ∷ b'-' ∷ b' ' ∷ now))

pub send_message-short :
    (now s : List ℕ) → length now ≡ 23 → length s < 74 → send_message now s ≡ some (stamped now s)
unfolding send_message
send_message-short now s h k =
    in_buffer-short 100 (stamped now s) (omega (arith, length-stamped now s h))

-- A line that is not for a file, and fits.
pub main_round_by :
    (text now : List ℕ) (i : Input) (c c2 : Client) (s s2 : Session) (replies : List (List ℕ))
    (reading : Reading) (goes_on : Bool)
    → starts_with (text ++ (b'\n' ∷ [])) (b'@' ∷ []) ≡ false
    → classify (text ++ (b'\n' ∷ [])) ≡ (reading, goes_on)
    → length now ≡ 23
    → length text < 74
    → serve i (stamped now text) s ≡ some (replies, s2, goes_on)
    → receive reading replies c ≡ some c2
    → main_round (typed text now i) [] (c, s) ≡ some (c2, s2, goes_on, goes_on)
unfolding main_round exchange_as
main_round_by text now i c c2 s s2 replies reading goes_on at sort h k e1 e2 =
    rw
      (
        at,
        sort,
        send_command_to_server-line now text,
        in_buffer-short 100 (stamped now text) (omega (arith, length-stamped now text h)),
        e1,
        e2,
      )
      refl

serve-echo :
    (text now : List ℕ) (i : Input) (s : Session)
    → s.echo_buf ≡ zeros
    → length now ≡ 23
    → length i.now ≡ 23
    → length text < 69
    → has 0 text ≡ false
    → serve i (stamped now (word_echo ++ (b' ' ∷ text))) s
      ≡ some (stamped i.now text ∷ [], record s { echo_buf = zeros }, true)
unfolding serve serve_as parse_command starts_with
serve-echo text now i s e h k n z =
    rw
      (
        argument-stamped (word_echo ++ (b' ' ∷ [])) now text 5 refl h,
        e,
        c_string-copy_to text 100 z,
        send_message-short i.now text k (omega arith),
      )
      refl

pub serve-cd :
    (name now dir target : List ℕ) (i : Input) (s : Session)
    → target_path s.dir_path name ≡ some target
    → dir ≡ (if i.entered then target else s.dir_path)
    → length now ≡ 23
    → length i.now ≡ 23
    → length dir < 55
    → serve i (stamped now (word_cd ++ (b' ' ∷ name))) s
      ≡ some (
        stamped i.now (current_directory ++ dir) ∷ [],
        record { dir_path = dir; echo_buf = zeros },
        true,
      )
unfolding serve serve_as parse_command starts_with change_directory enter
serve-cd name now dir target i s e d h k n =
    rw
      (
        argument-stamped (word_cd ++ (b' ' ∷ [])) now name 3 refl h,
        e,
        ← d,
        in_buffer-short 100 dir (omega arith),
        send_message-short i.now (current_directory ++ dir) k (omega arith),
      )
      refl

pub serve-list :
    (rest now : List ℕ) (i : Input) (s : Session) (es : List Entry)
    → i.entries ≡ some es
    → serve i (stamped now (word_list ++ rest)) s
      ≡ some (entry_lines es ++ (word_done ∷ []), record s { echo_buf = zeros }, true)
unfolding serve serve_as parse_command starts_with send_directory_listing
serve-list rest now i s es e = rw e refl

-- For a client and a server in step, with times of 23 characters, a text of at most 68
-- characters, none of them 0, comes back from the server as it was typed, with the time of the
-- server behind it; the buffer of the server is cleared and nothing else changes.
pub main_round-echo :
    (text now : List ℕ) (i : Input) (path dir : List ℕ) (printed : List (List ℕ))
    → length now ≡ 23
    → length i.now ≡ 23
    → length text < 69
    → has 0 text ≡ false
    → main_round (typed (word_echo ++ (b' ' ∷ text)) now i) [] (between path printed dir)
      ≡ some (
          let (c, s) = between path (printed ++ (stamped i.now text ∷ [])) dir in
          (c, s, true, true))
unfolding classify starts_with
main_round-echo text now i path dir printed h k n z =
    let (c, s) = between path printed dir in
    let (c2, s2) = between path (printed ++ (stamped i.now text ∷ [])) dir in
    main_round_by (word_echo ++ (b' ' ∷ text)) now i c c2 s s2 (stamped i.now text ∷ []) one true
      refl refl h (omega arith) (serve-echo text now i s refl h k n z)
      (receive-one c (stamped i.now text) refl)

-- The entries of the directory are printed line by line, in their order, when none of the lines
-- starts with "done" and the request fits; nothing of the answer is left unread.
pub main_round-list :
    (rest now : List ℕ) (i : Input) (path dir : List ℕ) (printed : List (List ℕ)) (es : List Entry)
    → length now ≡ 23
    → length rest < 70
    → i.entries ≡ some es
    → NoneDone (entry_lines es)
    → main_round (typed (word_list ++ rest) now i) [] (between path printed dir)
      ≡ some (let (c, s) = between path (printed ++ entry_lines es) dir in (c, s, true, true))
unfolding classify starts_with
main_round-list rest now i path dir printed es h n e d =
    let (c, s) = between path printed dir in
    let (c2, s2) = between path (printed ++ entry_lines es) dir in
    main_round_by (word_list ++ rest) now i c c2 s s2 (entry_lines es ++ (word_done ∷ [])) listing
      true refl refl h (omega arith) (serve-list rest now i s es e)
      (receive-listing c (entry_lines es) refl d)

-- A change of the directory: the server is in the directory it asked for if the system lets it, in
-- the old one otherwise, and the prompt shows where it is, when the path has at most 54 characters.
pub main_round-cd :
    (name now path dir dir2 target : List ℕ) (i : Input) (printed : List (List ℕ))
    → length now ≡ 23
    → length i.now ≡ 23
    → length name < 71
    → target_path dir name ≡ some target
    → dir2 ≡ (if i.entered then target else dir)
    → length dir2 < 55
    → main_round (typed (word_cd ++ (b' ' ∷ name)) now i) [] (between path printed dir)
      ≡ some (let (c, s) = between (prompt dir2) printed dir2 in (c, s, true, true))
unfolding classify starts_with
main_round-cd name now path dir dir2 target i printed h k n e d m =
    let (c, s) = between path printed dir in
    let (c2, s2) = between (prompt dir2) printed dir2 in
    main_round_by (word_cd ++ (b' ' ∷ name)) now i c c2 s s2
      (stamped i.now (current_directory ++ dir2) ∷ []) directory true refl refl h (omega arith)
      (serve-cd name now dir2 target i s e d h k m)
      (receive-directory c i.now dir2 refl k
        ∙ ap (λ o. o >>= λ path. some (record c { unread = []; path = path }))
            (in_buffer-short 100 (prompt dir2)
              (omega (arith, m, length-append dir2 (b'>' ∷ b' ' ∷ [])))))
