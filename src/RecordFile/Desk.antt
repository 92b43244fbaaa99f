-- ===== src/RecordFile/Desk.antt =====
-- Lab7/main.c run by several users at once on one file of records. A round of a user is a round of the loop of
-- `main` of one of them, on the file as the rounds before have left it; the locks keep the handlers
-- apart.
use osisp_labs.Common.{ℕ, ◌≤◌, Bool, Option, List, [], ◌∷◌, ◌==◌, if◌then◌else◌, length}
use osisp_labs.RecordFile.{Record, Saved, Editor, Input, step}
use osisp_labs.RecordFile.Modify.{IsRecord}
use osisp_labs.RecordFile.Records.{AreRecords}

-- The file, what `main` of each user holds, and who is still in the loop. The field `file` of an
-- editor is not used between rounds.
pub record Desk : Type 0 where
  pub file : List Record
  pub editors : ℕ → Editor
  pub working : ℕ → Bool

abbrev pub seated {ℓ} : {A : Type ℓ} → (ℕ → A) → ℕ → A → ℕ → A
seated f k a = λ j. if k == j then a else f j

module _ (scanf : List ℕ → Option ℕ) where
  unfoldable pub user_round : ℕ → Input → Desk → Desk
  user_round k i d =
      let (effects, s, goes_on) = step scanf (record (d.editors k) { file = d.file }) i in
      if d.working k
      then record {
        file = s.file;
        editors = seated d.editors k s;
        working = seated d.working k goes_on;
      }
      else d

  unfoldable pub user_rounds : List (ℕ × Input) → Desk → Desk
  unfolding user_round
  user_rounds [] d = d
  user_rounds ((k, i) ∷ rest) d = user_rounds rest (user_round k i d)

-- The variables of an editor are records that fit, and `size` counts records of the file.
pub record IsEditor (file : List Record) (s : Editor) : Type 0 where
  pub old : IsRecord s.old
  pub new : IsRecord s.new
  pub size : s.size ≤ length file

pub record IsDesk (d : Desk) : Type 0 where
  pub file : AreRecords d.file
  pub editors : (k : ℕ) → IsEditor d.file (d.editors k)

-- What the memory holds where `read` finds nothing, in each round.
abbrev pub AreTyped : List (ℕ × Input) → Type 0
AreTyped [] = Unit
AreTyped ((k, i) ∷ rest) = IsRecord i.junk × AreTyped rest

-- What one round leaves of a file that had `n` records.
record Left (n : ℕ) (s : Editor) : Type 0 where
  file : AreRecords s.file
  editor : IsEditor s.file s
  longer : n ≤ length s.file

-- Of the outcome of `saveRecord`.
record IsSaved (n : ℕ) (r : Saved) : Type 0 where
  file : AreRecords r.file
  new : IsRecord r.new
  old : IsRecord r.old
  longer : n ≤ length r.file
