-- ===== src/RecordFile/Session.antt =====
-- Rounds of the loop of Lab7/main.c: reading, rewriting and saving a record.
use osisp_labs.Common.{
  ℕ, zero, suc, ◌+◌, ◌-◌, ◌<◌, ◌≤◌, ◌≡◌, ◌≢◌, refl, ap, ◌∙◌, sym, Bool, true, false, inl, inr,
  Option, some, List, [], ◌∷◌, ◌++◌, arith, ltb, get_elem?, set, length, replicate, get_or,
  get_or-set_self,
}
use osisp_labs.RecordFile.{
  Record, Effect, get_record_numb, modify_record, write_record, zero_record, Saved, save_record,
  Editor, Input, step,
}
use osisp_labs.RecordFile.Save.{
  save_record_agreed, save_record_refused, save_record_insisted, asked, outcome_cases,
  write_record_inside,
}

get_or_any :
    (file : List Record) (n : ℕ) (c d : Record)
    → n < length file
    → get_or file n c ≡ get_or file n d
get_or_any [] n c d h = absurd (omega arith)
get_or_any (r ∷ file) zero c d h = refl
get_or_any (r ∷ file) (suc n) c d h = get_or_any file n c d (omega arith)

get_or-some :
    (file : List Record) (n : ℕ) (r d : Record) → get_elem? file n ≡ some r → get_or file n d ≡ r
get_or-some [] n r d e = absurd (cc)
get_or-some (x ∷ file) zero r d e = ground arith
get_or-some (x ∷ file) (suc n) r d e = get_or-some file n r d e

-- A change of the record makes `saveRecord` ask.
asked_lem :
    (junk : Record) (symbol : ℕ) (file : List Record) (numb : ℕ) (new old : Record)
    → get_or file numb junk ≢ old
    → asked (save_record true junk symbol file numb new old).effects ≡ true
asked_lem junk symbol file numb new old ne = elim (outcome_cases junk symbol file numb new old) [
  | inl same ↦ absurd (ne same)
  | inr (other, inl refuse) ↦
      ap (λ r. asked r.effects) (save_record_refused junk symbol file numb new old other refuse)
  | inr (other, inr insist) ↦
      ap (λ r. asked r.effects) (save_record_insisted junk symbol file numb new old other insist)
]

-- Without a refusal `saveRecord` writes.
written_lem :
    (junk : Record) (symbol : ℕ) (file : List Record) (numb : ℕ) (new old : Record)
    → symbol ≢ b'n'
    → (save_record true junk symbol file numb new old).file ≡ write_record file numb new
written_lem junk symbol file numb new old ne = elim (outcome_cases junk symbol file numb new old) [
  | inl same ↦ ap (λ r. r.file) (save_record_agreed junk symbol file numb new old same)
  | inr (other, inl refuse) ↦ absurd (ne refuse)
  | inr (other, inr insist) ↦
      ap (λ r. r.file) (save_record_insisted junk symbol file numb new old other insist)
]

get_elem?-append_at :
    (file : List Record) (n k : ℕ) (z r : Record)
    → length file + k ≡ n
    → get_elem? (file ++ (replicate k z ++ (r ∷ []))) n ≡ some r
get_elem?-append_at [] zero zero z r e = refl
get_elem?-append_at [] zero (suc k) z r e = absurd (omega arith)
get_elem?-append_at [] (suc n) zero z r e = absurd (omega arith)
get_elem?-append_at [] (suc n) (suc k) z r e = get_elem?-append_at [] n k z r (omega arith)
get_elem?-append_at (x ∷ file) zero k z r e = absurd (omega arith)
get_elem?-append_at (x ∷ file) (suc n) k z r e = get_elem?-append_at file n k z r (omega arith)

write_record_behind :
    (file : List Record) (n : ℕ) (r : Record)
    → length file ≤ n
    → get_elem? (write_record file n r) n ≡ some r
unfolding write_record
write_record_behind file n r h =
    let far : ltb n (length file) ≡ false = ground arith in
    rw (far) (get_elem?-append_at file n (n - length file) zero_record r (omega arith))

-- The rounds for 'g', 'r' and 's', the lock given.
abbrev pub get : Input → ℕ → Input
get i n = record i { symbol = b'g'; number = n; granted = true }

abbrev pub rewrite : Input → Input
rewrite i = record i { symbol = b'r' }

abbrev pub save : Input → Input
save i = record i { symbol = b's'; granted = true }

module _ (scanf : List ℕ → Option ℕ) where
  abbrev pub after : Editor → Input → Editor
  after s i = (step scanf s i).1

  -- The state after 's' and what it does are those of `saveRecord`.
  abbrev stored : Editor → Saved → List Effect × Editor × Bool
  stored s saved =
      (saved.effects, record s { file = saved.file; old = saved.old; new = saved.new }, true)

  abbrev saved_at : Editor → Input → Saved
  saved_at s i = save_record true i.junk i.answer s.file s.current_record s.new s.old

  save_lem : (s : Editor) (i : Input) → step scanf s (save i) ≡ stored s (saved_at s i)
  unfolding step
  save_lem s i = refl

  get_lem :
      (s : Editor) (i : Input) (n : ℕ)
      → n < s.size
      → after s (get i n) ≡ record s { current_record = n; old = get_or s.file n s.old }
  unfolding step get_record_numb
  get_lem s i n h = ground arith

  get_big_lem :
      (s : Editor) (i : Input) (n : ℕ)
      → s.size ≤ n
      → after s (get i n) ≡ record s { current_record = n }
  unfolding step
  get_big_lem s i n h = ground arith

  rewrite_lem :
      (s : Editor) (i : Input)
      → after s (rewrite i) ≡ record s { new = modify_record scanf i.typed s.old }
  unfolding step
  rewrite_lem s i = refl

  abbrev pub edit : Editor → Input → Input → Input → ℕ → Editor
  edit s i j k n = after (after (after s (get i n)) (rewrite j)) (save k)

  -- If `size` is the number of records of the file and n a record of it: reading record n,
  -- rewriting it and saving it, with all locks given and nobody else in between, writes the
  -- rewritten record in its place and no other.
  pub edit_round :
      (s : Editor) (i j k : Input) (n : ℕ)
      → s.size ≡ length s.file
      → n < s.size
      → (edit s i j k n).file ≡ set s.file n (modify_record scanf j.typed (get_or s.file n s.old))
  edit_round s i j k n e h =
      let r = get_or s.file n s.old in
      let m = modify_record scanf j.typed r in
      let read : Editor = record s { current_record = n; old = r } in
      let state : Editor = record s { current_record = n; old = r; new = m } in
      ap (λ t. (after (after t (rewrite j)) (save k)).file) (get_lem s i n h)
      ∙ ap (λ t. (after t (save k)).file) (rewrite_lem read j)
      ∙ ap (λ q. q.1.file) (save_lem state k)
      ∙ ap (λ q. q.file)
          (save_record_agreed k.junk k.answer s.file n m r
            (get_or_any s.file n k.junk s.old (omega arith)))
      ∙ write_record_inside s.file n m (omega arith)

  -- If the current record of the file is the one that was read, and the rewritten one differs
  -- from it, saving twice asks about a change the second time, though the change is the editor's
  -- own.
  pub save_again_asks :
      (s : Editor) (i j : Input)
      → s.current_record < length s.file
      → get_elem? s.file s.current_record ≡ some s.old
      → s.new ≢ s.old
      → asked (step scanf (after s (save i)) (save j)).0 ≡ true
  save_again_asks s i j h e ne =
      let n = s.current_record in
      let r : get_or s.file n i.junk ≡ s.old = get_or-some s.file n s.old i.junk e in
      let t : Editor = record s { file = set s.file n s.new } in
      let first : after s (save i) ≡ t =
        ap (λ q. q.1) (save_lem s i)
        ∙ ap (λ q. record s { file = q.file; old = q.old; new = q.new })
            (save_record_agreed i.junk i.answer s.file n s.new s.old r)
        ∙ ap (λ f. record s { file = f }) (write_record_inside s.file n s.new h) in
      ap (λ u. asked (step scanf u (save j)).0) first
      ∙ ap (λ q. asked q.0) (save_lem t j)
      ∙ asked_lem j.junk j.answer (set s.file n s.new) n s.new s.old
          (λ same. ne (sym (get_or-set_self s.file n s.new j.junk h) ∙ same))

  -- If `size` is the number of records of the file: a number that is too big is refused but stays
  -- the current one, and a save that the user does not refuse then writes the record behind the
  -- end of the file.
  pub save_behind_end :
      (s : Editor) (i j : Input) (n : ℕ)
      → s.size ≡ length s.file
      → s.size ≤ n
      → j.answer ≢ b'n'
      → get_elem? (after (after s (get i n)) (save j)).file n ≡ some s.new
  save_behind_end s i j n e h ne =
      let there : Editor = record s { current_record = n } in
      ap (λ t. get_elem? (after t (save j)).file n) (get_big_lem s i n h)
      ∙ ap (λ q. get_elem? q.1.file n) (save_lem there j)
      ∙ ap (λ f. get_elem? f n) (written_lem j.junk j.answer s.file n s.new s.old ne)
      ∙ write_record_behind s.file n s.new (omega arith)
