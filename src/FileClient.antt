-- ===== src/FileClient.antt =====
-- Lab8/client.c: the client of the dialog with Lab8/server.c. A read of the socket takes what one
-- `send` of the server has sent; the messages that are not yet read are a list. `none` is undefined
-- behaviour, as in FileServer.antt, or the end of the program when nothing is left to read. Of what
-- the program prints, `printed` has the answers.
pub mod Requests
pub mod Answers
pub mod Dialog
pub mod Rounds
pub mod Directory
pub mod Faults
mod Tests
use osisp_labs.Common.{
  ◌>>=◌, ℕ, zero, suc, ◌+◌, ◌-◌, Bool, true, false, not, Option, none, some, List, [], ◌∷◌, ◌++◌,
  ltb, ◌==◌, if◌then◌else◌, length, take, drop,
}
use osisp_labs.FileServer.{
  Input, Session, serve, send_info_about_server, starts_with, in_buffer, stamped, word_quit,
  word_cd, word_list, word_done,
}
use osisp_labs.FileServer.Connection.{Dialing, set_connction}

-- `sendCommandToServer`, for a string in a buffer of 100 bytes: its last character is cut off.
unfoldable pub send_command_to_server : List ℕ → List ℕ → Option (List ℕ)
send_command_to_server now command =
    if length command == 0
    then none
    else in_buffer 100 (stamped now (take (length command - 1) command))

-- `getResponseFromServer`: the line printed, and the messages left. More than one message are those
-- of a list, which are longer than what it reads; this is left out.
unfoldable pub get_response_from_server : List (List ℕ) → Option (List ℕ × List (List ℕ))
get_response_from_server [] = none
get_response_from_server (m ∷ []) = some (m, [])
get_response_from_server (m ∷ n ∷ messages) = none

-- `getListDirectory` behind the sending: the lines printed, and the messages left
unfoldable pub get_list_directory : List (List ℕ) → Option (List (List ℕ) × List (List ℕ))
unfolding starts_with
get_list_directory [] = none
get_list_directory (m ∷ messages) =
    let rest = get_list_directory messages in
    if starts_with m word_done
    then some ([], messages)
    else (rest >>= λ (lines, left). some (m ∷ lines, left))

-- `changeDirectory` behind the sending: what `path` is then. A message too short gives a length
-- below zero.
unfoldable pub new_path : List ℕ → Option (List ℕ)
new_path m =
    if ltb (length m) (18 + 26)
    then none
    else in_buffer 100 (take (length m - 18 - 26) (drop 18 m) ++ (b'>' ∷ b' ' ∷ []))

-- What the client does with a line: which request it sends, and how it reads the answer.
pub data Reading : Type 0 where
  one : Reading
  listing : Reading
  directory : Reading

pub record Client : Type 0 where
  pub path : List ℕ
  pub unread : List (List ℕ)
  pub printed : List (List ℕ)

-- The tests of the loop of `main`, without '@', in their order; and whether it goes on.
unfoldable pub classify : List ℕ → Reading × Bool
unfolding starts_with
classify command =
    let work = if starts_with command word_quit then false else true in
    if starts_with command word_list
    then (listing, work)
    else if starts_with command word_cd
    then (directory, work)
    else (one, work)

-- The answer to a request, with the messages that it adds to those not read.
unfoldable pub receive : Reading → List (List ℕ) → Client → Option Client
unfolding get_response_from_server get_list_directory new_path
receive one messages s = do
  (line, left) ← get_response_from_server (s.unread ++ messages)
  some (record s { unread = left; printed = s.printed ++ (line ∷ []) })
receive listing messages s = do
  (lines, left) ← get_list_directory (s.unread ++ messages)
  some (record s { unread = left; printed = s.printed ++ lines })
receive directory messages s = do
  (line, left) ← get_response_from_server (s.unread ++ messages)
  path ← new_path line
  some (record s { unread = left; path = path })

-- A line of the input with what belongs to it: the time that `get_timestamp` writes, and what the
-- system gives to the server.
pub record Round : Type 0 where
  pub line : List ℕ
  pub sent_at : List ℕ
  pub input : Input

-- A request and its answer, with the server. The last value is whether the server goes on.
unfoldable pub exchange_as : Reading → Round → Client × Session → Option (Client × Session × Bool)
unfolding send_command_to_server receive
exchange_as reading r (c, s) = do
  sent ← send_command_to_server r.sent_at r.line
  (replies, s, connected) ← serve r.input sent s
  c ← receive reading replies c
  some (c, s, connected)

-- `sendFromFile`, for the lines of the file. Without the server a line is the end of the program.
unfoldable pub send_from_file : List Round → Client × Session → Option (Client × Session × Bool)
unfolding exchange_as
send_from_file [] st = some (st.0, st.1, true)
send_from_file (r ∷ rest) st = do
  (c, s, connected) ← exchange_as one r st
  elim connected [
    | true ↦ send_from_file rest (c, s)
    | false ↦ elim rest [ [] ↦ some (c, s, false) | x ∷ xs ↦ none ]
  ]

-- A round of the loop of `main`, with the lines of the file that '@' names. The last two values
-- are whether the loop and whether the server go on.
unfoldable pub main_round :
    Round → List Round → Client × Session → Option (Client × Session × Bool × Bool)
unfolding starts_with classify exchange_as send_from_file
main_round r file st =
    let (reading, work) = classify r.line in
    if starts_with r.line (b'@' ∷ [])
    then (send_from_file file st >>= λ (c, s, connected). some (c, s, true, connected))
    else (exchange_as reading r st >>= λ (c, s, connected). some (c, s, work, connected))

-- The start of `main`, behind a `setConnction` that may end it, and of `waitConnection`: what the server tells of itself is printed, then
-- the client sends "cd .". The buffer of the server for echoes holds anything.
unfoldable pub connect : Dialing → Round → List ℕ → List ℕ → Option (Client × Session)
unfolding exchange_as set_connction
connect k r dir_path junk = if not (set_connction k).1 then none else do
  hello ← send_info_about_server r.input
  (c, s, connected) ←
      exchange_as directory (record r { line = b'c' ∷ b'd' ∷ b' ' ∷ b'.' ∷ [] })
        (
          record { path = []; unread = []; printed = hello ∷ [] },
          record { dir_path = dir_path; echo_buf = junk },
        )
  some (c, s)

-- The rest of `main`: rounds until the loop ends. When the server is gone before, the next read
-- ends the program.
unfoldable pub dialog :
    List (Round × List Round) → Client × Session → Option (Client × Session × Bool)
unfolding main_round
dialog [] (c, s) = some (c, s, true)
dialog ((r, file) ∷ rounds) st = do
  (c, s, work, connected) ← main_round r file st
  elim work [
    | true ↦ elim connected [ true ↦ dialog rounds (c, s) | false ↦ none ]
    | false ↦ some (c, s, false)
  ]
