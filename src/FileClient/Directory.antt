-- ===== src/FileClient/Directory.antt =====
-- The directory of a client of Lab8: down and up again, and where it is after the start.
use osisp_labs.Common.{
  ◌>>=◌, ℕ, ◌<◌, ◌≡◌, refl, true, some, List, [], ◌∷◌, ◌++◌, arith, length, take, length-append,
  length-take,
}
use osisp_labs.FileServer.{Input, stamped, word_cd, send_info_about_server}
use osisp_labs.FileServer.Directory.{IsName, empty-IsName, target_path-name, target_path-up}
use osisp_labs.FileServer.Connection.{Dialing, set_connction}
use osisp_labs.FileClient.{exchange_as, connect, dialog, main_round, send_command_to_server}
use osisp_labs.FileClient.Answers.{prompt, receive-directory}
use osisp_labs.FileClient.Rounds.{
  typed, between, main_round-cd, serve-cd, in_buffer-short, send_message-short,
}

-- For a client and a server in step, with times of 23 characters, a change into a directory by
-- its name and back by ".." gives the directory and the prompt from which one came, when the
-- system lets the server in both times, the name has no '/' and does not start with '.', and its
-- path has at most 54 characters.
pub dialog-cd :
    (name now dir : List ℕ) (i : Input) (printed : List (List ℕ))
    → length now ≡ 23
    → length i.now ≡ 23
    → i.entered ≡ true
    → IsName name
    → length (dir ++ (b'/' ∷ name)) < 55
    → dialog
        ((typed (word_cd ++ (b' ' ∷ name)) now i, [])
          ∷ (typed (word_cd ++ (b' ' ∷ b'.' ∷ b'.' ∷ [])) now i, [])
          ∷ [])
        (between (prompt dir) printed dir)
      ≡ some (let (c, s) = between (prompt dir) printed dir in (c, s, true))
unfolding dialog
dialog-cd name now dir i printed h k e a n =
    let size = length-append dir (b'/' ∷ name) in
    let down =
      main_round-cd name now (prompt dir) dir (dir ++ (b'/' ∷ name)) (dir ++ (b'/' ∷ name)) i
        printed h k (omega (arith, size, n)) (target_path-name dir name a) (rw e refl) n in
    let up =
      main_round-cd (b'.' ∷ b'.' ∷ []) now (prompt (dir ++ (b'/' ∷ name))) (dir ++ (b'/' ∷ name))
        dir dir i printed h k (omega arith) (target_path-up dir name a) (rw e refl)
        (omega (arith, size, n)) in
    rw (down, up) refl

send_info_about_server-short :
    (text : List ℕ) (i : Input)
    → length i.now ≡ 23
    → i.info ≡ some text
    → length text < 74
    → send_info_about_server i ≡ some (stamped i.now (take 99 text))
unfolding send_info_about_server
send_info_about_server-short text i k o m =
    rw o (send_message-short i.now (take 99 text) k (omega (arith, length-take 99 text)))

connect_lem :
    (k : Dialing) (text now dir junk : List ℕ) (i : Input)
    → length now ≡ 23
    → length i.now ≡ 23
    → i.entered ≡ true
    → i.info ≡ some text
    → length text < 74
    → length dir < 54
    → (set_connction k).1 ≡ true
    → connect k (typed [] now i) dir junk
      ≡ some (
          between
            (prompt (dir ++ (b'/' ∷ [])))
            (stamped i.now (take 99 text) ∷ [])
            (dir ++ (b'/' ∷ [])))
unfolding connect exchange_as send_command_to_server
connect_lem dialing text now dir junk i h k e o m n up =
    let hello : List (List ℕ) = stamped i.now (take 99 text) ∷ [] in
    let size : length (dir ++ (b'/' ∷ [])) < 55 = omega (arith, n, length-append dir (b'/' ∷ [])) in
    rw
      (
        up,
        send_info_about_server-short text i k o m,
        in_buffer-short 100 (stamped now (word_cd ++ (b' ' ∷ []))) (omega (arith, h)),
        serve-cd [] now (dir ++ (b'/' ∷ [])) (dir ++ (b'/' ∷ [])) i
            (record { dir_path = dir; echo_buf = junk }) (target_path-name dir [] empty-IsName)
            (rw e refl) h k size,
        receive-directory (record { path = []; unread = []; printed = hello }) i.now
            (dir ++ (b'/' ∷ [])) refl k,
        in_buffer-short 100 (prompt (dir ++ (b'/' ∷ [])))
            (omega (arith, size, length-append (dir ++ (b'/' ∷ [])) (b'>' ∷ b' ' ∷ []))),
      )
      refl

-- The first request of a client is "cd ." without its last character, so that the server puts
-- "/" behind its directory; the first change to ".." only takes it away again, and leaves the
-- server where it started. Times have 23 characters, the client gets its connection, the system
-- lets the server in, the info file is opened and has at most 73 characters, and the directory at
-- most 53.
pub connect-up :
    (k : Dialing) (text now dir junk : List ℕ) (i : Input)
    → length now ≡ 23
    → length i.now ≡ 23
    → i.entered ≡ true
    → i.info ≡ some text
    → length text < 74
    → length dir < 54
    → (set_connction k).1 ≡ true
    → (connect k (typed [] now i) dir junk
        >>= main_round (typed (word_cd ++ (b' ' ∷ b'.' ∷ b'.' ∷ [])) now i) [])
      ≡ some (
          let (c, s) = between (prompt dir) (stamped i.now (take 99 text) ∷ []) dir in
          (c, s, true, true))
connect-up dialing text now dir junk i h k e o m n goes_on =
    let up =
      main_round-cd (b'.' ∷ b'.' ∷ []) now (prompt (dir ++ (b'/' ∷ []))) (dir ++ (b'/' ∷ [])) dir
        dir i (stamped i.now (take 99 text) ∷ []) h k (omega arith)
        (target_path-up dir [] empty-IsName) (rw e refl) (omega arith) in
    rw (connect_lem dialing text now dir junk i h k e o m n goes_on) up
