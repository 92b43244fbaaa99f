-- ===== src/RecordFile/Tests.antt =====
-- A file of two records of Lab7/main.c, and the theorems at it.
use osisp_labs.Common.{
  ℕ, ◌-◌, ◌≡◌, ◌≢◌, refl, ap, ◌⊎◌, true, Option, some, none, List, [], ◌∷◌, arith, get_elem?, set,
}
use osisp_labs.RecordFile.{
  Record, show, lock_file, unlock_file, print_all_file, modify_record, save_record, Editor, Input,
}
use osisp_labs.RecordFile.Save.{asked, save_record_guard}
use osisp_labs.RecordFile.Desk.{Desk, user_rounds}
use osisp_labs.RecordFile.Session.{get, rewrite, save, after, edit_round, save_behind_end}

abbrev pub anna : Record
anna = record { name = b'A' ∷ 10 ∷ []; address = b'M' ∷ 10 ∷ []; semester = 3 }

abbrev pub boris : Record
boris = record { name = b'B' ∷ 10 ∷ []; address = b'G' ∷ 10 ∷ []; semester = 5 }

abbrev two_records : List Record
two_records = anna ∷ boris ∷ []

-- `scanf` as far as these tests need it: one digit.
abbrev pub digit : List ℕ → Option ℕ
digit [] = none
digit (c ∷ cs) = some (c - b'0')

abbrev editor : Editor
editor = record { file = two_records; size = 2; current_record = 1; old = boris; new = anna }

-- The lines "C", "K" and the number 7.
abbrev pub typing : Input
typing = record {
  symbol = 0;
  number = 0;
  granted = true;
  answer = b'y';
  junk = anna;
  typed = b'C' ∷ 10 ∷ b'K' ∷ 10 ∷ b'7' ∷ [];
}

abbrev clara : Record
clara = record { name = b'C' ∷ 10 ∷ []; address = b'K' ∷ 10 ∷ []; semester = 7 }

modify_runs : modify_record digit typing.typed anna ≡ clara
unfolding modify_record
modify_runs = refl

print_runs :
    print_all_file true two_records ≡ lock_file ∷ show 0 anna ∷ show 1 boris ∷ unlock_file ∷ []
unfolding print_all_file
print_runs = refl

abbrev semester_of : Option Record → ℕ
semester_of none = 0
semester_of (some r) = r.semester

different : (some anna) ≢ (some boris)
different e = let f : 3 ≡ 5 = ap semester_of e in absurd (omega (arith, f))

anna_not_boris :
    (get_elem? (save_record true anna b'y' two_records 1 anna anna).file 1) ≢ some boris
unfolding save_record
anna_not_boris e = different e

save_record_guard_example :
    let n : ℕ = 1 in
    (n ≡ n)
    × ((some boris ≡ some anna)
        ⊎ ((asked (save_record true anna b'y' two_records 1 anna anna).effects ≡ true)
            × (typing.answer ≢ b'n')))
save_record_guard_example =
    save_record_guard true anna b'y' two_records 1 anna anna 1 (omega arith) anna_not_boris

-- Two users: the first takes a record, rewrites it and saves it while the second reads it.
abbrev two_users : Desk
two_users = record { file = two_records; editors = λ _. editor; working = λ _. true }

abbrev mixed : List (ℕ × Input)
mixed = (0, get typing 0) ∷ (1, get typing 0) ∷ (0, rewrite typing) ∷ (0, save typing) ∷ []

clara_is_saved : (user_rounds digit mixed two_users).file ≡ clara ∷ boris ∷ []
unfolding user_rounds osisp_labs.RecordFile.step
clara_is_saved = refl

edit_round_example :
    (after digit
      (after digit (after digit editor (get typing 0)) (rewrite typing))
      (save typing)).file
    ≡ set two_records 0 (modify_record digit typing.typed anna)
edit_round_example = edit_round digit editor typing typing typing 0 refl (omega arith)

save_behind_end_example :
    get_elem? (after digit (after digit editor (get typing 4)) (save typing)).file 4 ≡ some anna
save_behind_end_example =
    save_behind_end digit editor typing typing 4 refl (omega arith) (λ e. absurd (omega arith))
