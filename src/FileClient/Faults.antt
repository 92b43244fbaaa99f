-- ===== src/FileClient/Faults.antt =====
-- Where the dialog of Lab8 goes wrong: a name that looks like the end of a list, a path that is too
-- long for the reply, a file of lines that holds a list.
use osisp_labs.Common.{
  ℕ, ◌<◌, ◌≡◌, refl, ap, ◌∙◌, true, false, Bool-cases, inl, inr, none, some, List, [], ◌∷◌, ◌++◌,
  arith, length, ltb,
}
use mathlib.Core.List.{append_assoc}
use osisp_labs.FileServer.{
  Input, Entry, zeros, stamped, current_directory, entry_lines, word_done, word_cd, word_list,
  starts_with, serve, serve_as, parse_command, target_path, send_message, enter, change_directory,
}
use osisp_labs.FileServer.Strings.{argument-stamped}
use osisp_labs.FileClient.{listing, classify, Client, receive, main_round, exchange_as}
use osisp_labs.FileClient.Requests.{send_command_to_server-line}
use osisp_labs.FileClient.Answers.{NoneDone, get_list_directory-lines}
use osisp_labs.FileClient.Rounds.{
  typed, between, main_round_by, serve-list, in_buffer-short, length-stamped,
}

-- For a client and a server in step, and a request that fits into its buffer, the client takes
-- the first entry whose line starts with "done" for the end of the list: it prints only what
-- comes before, and the rest of the list and the true end stay unread.
list_cut_short :
    (rest now : List ℕ) (i : Input) (path dir : List ℕ) (printed : List (List ℕ)) (es : List Entry)
    (before after : List (List ℕ)) (m : List ℕ)
    → length now ≡ 23
    → length rest < 70
    → i.entries ≡ some es
    → entry_lines es ≡ before ++ (m ∷ after)
    → NoneDone before
    → starts_with m word_done ≡ true
    → main_round (typed (word_list ++ rest) now i) [] (between path printed dir)
      ≡ some (
        record { path = path; unread = after ++ (word_done ∷ []); printed = printed ++ before },
        record { dir_path = dir; echo_buf = zeros },
        true,
        true,
      )
unfolding classify starts_with receive
list_cut_short rest now i path dir printed es before after m h n e l d x =
    let (c, s) = between path printed dir in
    let c2 : Client = record {
      path = path;
      unread = after ++ (word_done ∷ []);
      printed = printed ++ before;
    } in
    let messages : entry_lines es ++ (word_done ∷ [])
        ≡ before ++ (m ∷ (after ++ (word_done ∷ []))) =
      ap (λ ms. ms ++ (word_done ∷ [])) l ∙ append_assoc before (m ∷ after) (word_done ∷ []) in
    main_round_by (word_list ++ rest) now i c c2 s s (entry_lines es ++ (word_done ∷ [])) listing
      true refl refl h (omega arith) (serve-list rest now i s es e)
      (rw (messages, get_list_directory-lines before (after ++ (word_done ∷ [])) m d x) refl)

send_message-long : (now s : List ℕ) → length now ≡ 23 → 73 < length s → send_message now s ≡ none
unfolding send_message
send_message-long now s h k =
    let full : ltb (length (stamped now s)) 100 ≡ false =
      let size = length-stamped now s h in ground (arith, size, k) in
    rw full refl

enter-long :
    (i : Input) (dir target : List ℕ)
    → length i.now ≡ 23
    → i.entered ≡ true
    → 54 < length target
    → enter i dir target ≡ none
unfolding enter
enter-long i dir target k e n =
    let reply = send_message-long i.now (current_directory ++ target) k (omega (arith, n)) in
    elim (Bool-cases (ltb (length target) 100)) [
      | inl fits ↦ rw (e, fits, reply) refl
      | inr full ↦ rw (e, full) refl
    ]

-- For a client and a server in step, with times of 23 characters and a name of at most 70: when
-- the system lets the server into a directory whose path has more than 54 characters, it writes
-- behind the 100 bytes of its reply, so that nothing is defined for client and server from there
-- on.
pub cd_too_long :
    (name now path dir target : List ℕ) (i : Input) (printed : List (List ℕ))
    → length now ≡ 23
    → length i.now ≡ 23
    → length name < 71
    → target_path dir name ≡ some target
    → i.entered ≡ true
    → 54 < length target
    → main_round (typed (word_cd ++ (b' ' ∷ name)) now i) [] (between path printed dir) ≡ none
unfolding main_round exchange_as classify starts_with serve serve_as parse_command change_directory
cd_too_long name now path dir target i printed h k n e o m =
    rw
      (
        send_command_to_server-line now (word_cd ++ (b' ' ∷ name)),
        in_buffer-short 100 (stamped now (word_cd ++ (b' ' ∷ name)))
            (omega (arith, length-stamped now (word_cd ++ (b' ' ∷ name)) h)),
        argument-stamped (word_cd ++ (b' ' ∷ [])) now name 3 refl h,
        e,
        enter-long i dir target k o m,
      )
      refl
