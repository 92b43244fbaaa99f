-- ===== src/StudentFile/Edited.antt =====
-- The file of Lab7/createFile.c in the two programs that read it, Lab7/readFile.c and the editor
-- Lab7/main.c.
use mathlib.Core.List.{append-nil}
use osisp_labs.Common.{
  ℕ, zero, suc, ◌+◌, ◌*◌, ◌/◌, ◌%◌, ◌<◌, ◌≤◌, ◌≡◌, refl, sym, ap, subst, ◌∙◌, true, Option, some,
  List, [], ◌∷◌, ◌++◌, map, length, get_or, set, arith, done, then_run,
}
use osisp_labs.RecordFile.{Record, Editor, Input, modify_record}
use osisp_labs.RecordFile.Modify.{IsRecord, modify_record-IsRecord}
use osisp_labs.RecordFile.Records.{AreRecords, set-AreRecords}
use osisp_labs.RecordFile.Session.{edit, edit_round}
use osisp_labs.StudentFile.{
  Stored, stored_bytes, random_letters, random_record, random_file, create_file, load_records,
  shown_records, read_file, open_editor, editor_on,
}
use osisp_labs.StudentFile.Written.{
  IsStored, AreStored, stored_file, load_records-stored_file, length-stored_file,
}
use osisp_labs.StudentFile.Lines.{
  range, length-range, line_ends, length-line, field_of, get_or-range,
}

module _ (rand : ℕ → ℕ) (junk : ℕ → List ℕ × List ℕ) where
  abbrev pub upper : ℕ → ℕ → ℕ
  upper i j = b'A' + rand (61 * i + 2 * j) % 26

  abbrev pub lower : ℕ → ℕ → ℕ
  lower i j = b'a' + rand (61 * i + (2 * j + 1)) % 26

  -- The student of number `i`: two lines of thirty letters, and a semester.
  abbrev pub student : ℕ → Record
  student i = record {
    name = map (upper i) (range 0 30) ++ (10 ∷ []);
    address = map (lower i) (range 0 30) ++ (10 ∷ []);
    semester = rand (61 * i + 60) % 10 + 1;
  }

  -- The students from number `i` on.
  abbrev pub students : ℕ → ℕ → List Record
  students i n = map student (range i n)

  random_letters_lem :
      (i j n call : ℕ)
      → call ≡ 61 * i + 2 * j
      → random_letters rand junk call n ≡ (map (upper i) (range j n), map (lower i) (range j n))
  unfolding random_letters
  random_letters_lem i j zero call e = refl
  random_letters_lem i j (suc n) call e =
      let rest = random_letters_lem i (suc j) n (call + 2) (omega (arith, e)) in
      let next : call + 1 ≡ 61 * i + (2 * j + 1) = omega (arith, e) in rw (rest, next, e) refl

  abbrev with_letters : ℕ → List ℕ × List ℕ → Stored
  with_letters i p = record {
    name = p.0 ++ (10 ∷ 0 ∷ (junk i).0);
    address = p.1 ++ (10 ∷ 0 ∷ (junk i).1);
    semester = rand (61 * i + 60) % 10 + 1;
  }

  random_record-IsStored :
      (i : ℕ)
      → length (junk i).0 ≡ 48
      → length (junk i).1 ≡ 48
      → IsStored (random_record rand junk i) (student i)
  unfolding random_record
  random_record-IsStored i hn ha =
      let letters = random_letters_lem i 0 30 (61 * i) (omega arith) in
      let (ns, ne) =
        field_of (map (upper i) (range 0 30)) (junk i).0
          (line_ends (upper i) 0 30 (λ j. omega arith)) refl hn in
      let (as', ae) =
        field_of (map (lower i) (range 0 30)) (junk i).1
          (line_ends (lower i) 0 30 (λ j. omega arith)) refl ha in
      subst (λ p. IsStored (with_letters i p) (student i)) (sym letters)
        (record {
          name_size = ns;
          address_size = as';
          name_ends = ne;
          address_ends = ae;
          semester_same = refl;
        })

  random_file_lem :
      (i n : ℕ)
      → random_file rand junk i n ≡ stored_file (map (random_record rand junk) (range i n))
  unfolding random_file
  random_file_lem i zero = refl
  random_file_lem i (suc n) =
      ap (λ f. stored_bytes (random_record rand junk i) ++ f) (random_file_lem (suc i) n)

  all_stored :
      (i n : ℕ)
      → ((k : ℕ) → (length (junk k).0 ≡ 48) × (length (junk k).1 ≡ 48))
      → AreStored (map (random_record rand junk) (range i n)) (students i n)
  all_stored i zero h = tt
  all_stored i (suc n) h = (random_record-IsStored i (h i).0 (h i).1, all_stored (suc i) n h)

  module _ (junk_size : (k : ℕ) → (length (junk k).0 ≡ 48) × (length (junk k).1 ≡ 48)) where
    loaded :
        (n fuel : ℕ)
        → n ≤ fuel
        → load_records fuel (random_file rand junk 0 n) ≡ some (students 0 n)
    loaded n fuel h =
        let stored = map (random_record rand junk) (range 0 n) in
        ap (load_records fuel) (random_file_lem 0 n ∙ sym (append-nil (stored_file stored)))
        ∙ load_records-stored_file stored (students 0 n) [] fuel (all_stored 0 n junk_size)
            (omega arith) (omega (arith, length-range (random_record rand junk) 0 n, h))

    file_size : (n : ℕ) → length (random_file rand junk 0 n) ≡ 161 * n
    file_size n =
        let stored = map (random_record rand junk) (range 0 n) in
        omega (
          arith,
          ap length (random_file_lem 0 n),
          length-stored_file stored (students 0 n) (all_stored 0 n junk_size),
          length-range (random_record rand junk) 0 n,
        )

    -- readFile.c prints the file of createFile.c: one entry for each of the records asked for, with
    -- the two lines of letters and the semester that were drawn, whatever the memory behind them
    -- was, if it fills the 80 bytes of a field.
    pub read_file-create_file :
        (n : ℕ) → then_run (create_file rand junk true n) (read_file true) ≡ done (students 0 n)
    unfolding then_run create_file read_file
    read_file-create_file n =
        ap shown_records
          (loaded n (length (random_file rand junk 0 n)) (omega (arith, file_size n)))

    -- The editor on that file.
    pub start_editor : ℕ → Record → Record → Editor
    start_editor n old new = record {
      file = students 0 n;
      size = n;
      current_record = 0;
      old = old;
      new = new;
    }

    open_editor-create_file :
        (n : ℕ) (old new : Record)
        → open_editor true (random_file rand junk 0 n) old new ≡ done (start_editor n old new)
    unfolding open_editor start_editor
    open_editor-create_file n old new =
        let bytes = random_file rand junk 0 n in
        let size : length bytes / 161 ≡ n = omega (arith, file_size n) in
        ap (editor_on (length bytes / 161) old new)
          (loaded n (length bytes) (omega (arith, file_size n)))
        ∙ ap (λ k. editor_on k old new (some (students 0 n))) size

    student-IsRecord : (i : ℕ) → IsRecord (student i)
    student-IsRecord i = record {
      name_fits = omega (arith, length-line (upper i) 0 30);
      address_fits = omega (arith, length-line (lower i) 0 30);
      semester_fits = omega arith;
    }

    students-AreRecords : (i n : ℕ) → AreRecords (students i n)
    students-AreRecords i zero = tt
    students-AreRecords i (suc n) = (student-IsRecord i, students-AreRecords (suc i) n)

    -- createFile.c and the editor: with memory that fills the fields, the editor opens the created
    -- file with the number of its records as `size`; and reading a record of it, rewriting and saving
    -- it, with all locks given and nobody else in between, leaves the created records with that one
    -- rewritten, and all of them in the form of the file.
    pub create_file-edit :
        (scanf : List ℕ → Option ℕ) (n m : ℕ) (old new : Record) (i j k : Input)
        → m < n
        → (s : Editor) × (then_run
              (create_file rand junk true n)
              (λ bytes. open_editor true bytes old new)
            ≡ done s)
          × (s.size ≡ n)
          × ((edit scanf s i j k m).file
              ≡ set (students 0 n) m (modify_record scanf j.typed (student m)))
          × AreRecords (edit scanf s i j k m).file
    unfolding then_run create_file start_editor
    create_file-edit scanf n m old new i j k h =
        let s = start_editor n old new in
        let read : get_or (students 0 n) m old ≡ student m =
          get_or-range student 0 m n old h ∙ ap student (omega arith) in
        let edited : (edit scanf s i j k m).file
            ≡ set (students 0 n) m (modify_record scanf j.typed (student m)) =
          edit_round scanf s i j k m (sym (length-range student 0 n)) h
          ∙ ap (λ r. set (students 0 n) m (modify_record scanf j.typed r)) read in
        (
          s,
          open_editor-create_file n old new,
          refl,
          edited,
          subst AreRecords (sym edited) (
              set-AreRecords (students 0 n) m (modify_record scanf j.typed (student m))
                (students-AreRecords 0 n)
                (modify_record-IsRecord scanf j.typed (student m) (student-IsRecord m))),
        )
