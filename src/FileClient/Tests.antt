-- ===== src/FileClient/Tests.antt =====
-- A client and a server of Lab8 at concrete requests.
use osisp_labs.Common.{
  ◌>>=◌, take, has, ℕ, ◌≡◌, refl, subst, true, some, List, [], ◌∷◌, ◌++◌, arith, replicate,
}
use mathlib.Core.Option.{some-injective}
use osisp_labs.FileServer.{
  Input, Entry, other, stamped, entry_lines, word_echo, word_cd, starts_with,
}
use osisp_labs.FileServer.Connection.{Dialing}
use osisp_labs.FileClient.{main_round, dialog, connect}
use osisp_labs.FileClient.Answers.{prompt, NoneDone, IsRound, InStep}
use osisp_labs.FileClient.Dialog.{main_round-InStep}
use osisp_labs.FileClient.Rounds.{typed, between, main_round-echo}
use osisp_labs.FileClient.Directory.{dialog-cd, connect-up}

-- A time, the directory "/home", and the file "a".
abbrev clock : List ℕ
clock = replicate 23 b'0'

abbrev home : List ℕ
home = b'/' ∷ b'h' ∷ b'o' ∷ b'm' ∷ b'e' ∷ []

abbrev file_a : Entry
file_a = record { name = b'a' ∷ []; kind = other }

abbrev at_home : List Entry → Input
at_home es = record { now = clock; info = some (b'i' ∷ []); entered = true; entries = some es }

abbrev word_hi : List ℕ
word_hi = b'h' ∷ b'i' ∷ []

main_round-echo_example :
    main_round
      (typed (word_echo ++ (b' ' ∷ word_hi)) clock (at_home []))
      []
      (between (prompt home) [] home)
    ≡ some
        (let (c, s) = between (prompt home) (stamped clock word_hi ∷ []) home in (c, s, true, true))
unfolding has
main_round-echo_example =
    main_round-echo word_hi clock (at_home []) (prompt home) home [] refl refl (omega arith) refl

file_a-IsRound : IsRound (typed (word_echo ++ (b' ' ∷ word_hi)) clock (at_home (file_a ∷ [])))
unfolding entry_lines starts_with
file_a-IsRound = record {
  text = word_echo ++ (b' ' ∷ word_hi);
  typed = refl;
  stamp = refl;
  listed = λ es e. subst (λ es. NoneDone (entry_lines es)) (some-injective _ _ e) (refl, tt);
}

main_round-InStep_example :
    (let (c, s) = between (prompt home) (stamped clock word_hi ∷ []) home in InStep c s)
    × (true ≡ true)
unfolding has
main_round-InStep_example =
    let (c, s) = between (prompt home) [] home in
    let (c2, s2) = between (prompt home) (stamped clock word_hi ∷ []) home in
    main_round-InStep (typed (word_echo ++ (b' ' ∷ word_hi)) clock (at_home (file_a ∷ []))) [] c c2
      s s2 true true file_a-IsRound tt (record { all_read = refl; shown = refl; cleared = refl })
      (main_round-echo word_hi clock (at_home (file_a ∷ [])) (prompt home) home [] refl refl
        (omega arith) refl)

dialog-cd_example :
    dialog
      ((typed (word_cd ++ (b' ' ∷ word_hi)) clock (at_home []), [])
        ∷ (typed (word_cd ++ (b' ' ∷ b'.' ∷ b'.' ∷ [])) clock (at_home []), [])
        ∷ [])
      (between (prompt home) [] home)
    ≡ some (let (c, s) = between (prompt home) [] home in (c, s, true))
unfolding has starts_with
dialog-cd_example =
    dialog-cd word_hi clock home (at_home []) [] refl refl refl (refl, refl) (omega arith)

abbrev dials : Dialing
dials = record { opened = true; address = true; connected = true }

connect-up_example :
    (connect dials (typed [] clock (at_home [])) home []
      >>= main_round (typed (word_cd ++ (b' ' ∷ b'.' ∷ b'.' ∷ [])) clock (at_home [])) [])
    ≡ some (
        let (c, s) = between (prompt home) (stamped clock (take 99 (b'i' ∷ [])) ∷ []) home in
        (c, s, true, true))
unfolding osisp_labs.FileServer.Connection.set_connction
connect-up_example =
    connect-up dials (b'i' ∷ []) clock home [] (at_home []) refl refl refl refl (omega arith)
      (omega arith) refl
