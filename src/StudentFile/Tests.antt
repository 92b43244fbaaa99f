-- ===== src/StudentFile/Tests.antt =====
-- Created student files of Lab7, and the theorems at them.
use osisp_labs.Common.{
  ℕ, ◌+◌, ◌*◌, ◌%◌, ◌≡◌, refl, true, List, [], ◌∷◌, ◌++◌, arith, length, replicate, set, done,
  undefined, then_run,
}
use osisp_labs.RecordFile.{Editor, modify_record}
use osisp_labs.RecordFile.Session.{edit}
use osisp_labs.RecordFile.Tests.{anna, boris, typing, digit}
use osisp_labs.StudentFile.{Stored, create_file, read_file, open_editor}
use osisp_labs.RecordFile.Records.{AreRecords}
use osisp_labs.StudentFile.Written.{stored_file, read_file-stored_file}
use osisp_labs.StudentFile.Edited.{student, students, read_file-create_file, create_file-edit}

abbrev rand : ℕ → ℕ
rand i = (7 * i + 5) % 101

abbrev junk : ℕ → List ℕ × List ℕ
junk i = (replicate 48 i, replicate 48 255)

junk_size : (k : ℕ) → (length (junk k).0 ≡ 48) × (length (junk k).1 ≡ 48)
junk_size k = (refl, refl)

-- A field without an end.
full_field : read_file true (replicate 161 b'x') ≡ undefined
unfolding read_file
full_field = refl

abbrev stored_anna : Stored
stored_anna = record {
  name = b'A' ∷ 10 ∷ replicate 78 0;
  address = b'M' ∷ 10 ∷ 0 ∷ replicate 77 b'x';
  semester = 3;
}

shorter_than_a_record :
    read_file true (stored_file (stored_anna ∷ []) ++ (b'B' ∷ [])) ≡ done (anna ∷ [])
unfolding read_file
shorter_than_a_record =
    read_file-stored_file (stored_anna ∷ []) (anna ∷ []) (b'B' ∷ [])
      (
        record {
          name_size = refl;
          address_size = refl;
          name_ends = refl;
          address_ends = refl;
          semester_same = refl;
        },
        tt,
      )
      (omega arith)

read_file-create_file_example :
    then_run (create_file rand junk true 3) (read_file true) ≡ done (students rand junk 0 3)
read_file-create_file_example = read_file-create_file rand junk junk_size 3

create_file-edit_example :
    (s : Editor) × (then_run
        (create_file rand junk true 3)
        (λ bytes. open_editor true bytes anna boris)
      ≡ done s)
    × (s.size ≡ 3)
    × ((edit digit s typing typing typing 1).file
        ≡ set (students rand junk 0 3) 1 (modify_record digit typing.typed (student rand junk 1)))
    × AreRecords (edit digit s typing typing typing 1).file
create_file-edit_example =
    create_file-edit rand junk junk_size digit 3 1 anna boris typing typing typing (omega arith)
