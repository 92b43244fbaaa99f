-- ===== src/Family/Prior.antt =====
-- What 'p' of Lab3/lab3.c means for the children, however the calls of the parent and the moves of
-- the children mix.
use osisp_labs.Common.{
  ℕ, zero, suc, ◌+◌, ◌<◌, ◌≤◌, ◌≡◌, ◌≢◌, refl, ap, ◌∙◌, sym, subst, Bool, true, false, ◌||◌, some,
  List, [], ◌∷◌, ◌++◌, map, arith, ◌==◌, Bool-cases, inl, inr, get_elem?, ltb,
}
use native.Mathlib.Decide.{ℕ_discrete}
use osisp_labs.Supervisor.{
  Pid, process, Signal, sigterm, sigusr1, sigusr2, kill, alarm, pos, Parent, Input, kill_slot,
  signal_from, ban_all_stats, kill_at, prior_command,
}
use osisp_labs.Supervisor.Signals.{kill_slot_lem}
use osisp_labs.Statistics.{Line}
use osisp_labs.Family.{
  Process, Move, move, Happening, calls, moves, Processes, with_process, happen, run, calls_of,
}
use osisp_labs.Family.Quiet.{
  sends, same_signal, any, is_quiet, move-usr1, move-quiet, move-silent, move-printing, is_printing,
  move-usr2, receive-usr1, receive-quiet, receive-ban,
}

-- Is one of the lines printed by this process?
abbrev pub prints : ℕ → List (ℕ × Line) → Bool
prints q [] = false
prints q ((p, l) ∷ lines) = p == q || prints q lines

prints-append :
    (q : ℕ) (xs ys : List (ℕ × Line))
    → prints q xs ≡ false
    → prints q ys ≡ false
    → prints q (xs ++ ys) ≡ false
prints-append q [] ys h k = k
prints-append q ((p, l) ∷ xs) ys h k =
    let own : (p == q) ≡ false = ground (arith, h) in
    let rest : prints q xs ≡ false = ground (arith, h) in rw (own) (prints-append q xs ys rest k)

prints_other :
    (p q : ℕ) (lines : List Line) → (p == q) ≡ false → prints q (map (λ l. (p, l)) lines) ≡ false
prints_other p q [] h = refl
prints_other p q (l ∷ lines) h = rw h (prints_other p q lines h)

pub either_process :
    (P : Process → Type 0) (f : Processes) (q p : ℕ) (m : Move)
    → (P (f q) → P (move (f q) m).0)
    → P (f q)
    → P (with_process f p (move (f p) m).0 q)
either_process P f q p m step h = elim (ℕ_discrete q p) [
  | yes same ↦
      let at : (q == p) ≡ true = ground (arith, same) in
      rw at (subst (λ r. P (move (f r) m).0) same (step h))
  | no other ↦ let off : (q == p) ≡ false = ground (arith, other) in rw off h
]

pub or_false : (a b : Bool) → (a || b) ≡ false → (a ≡ false) × (b ≡ false)
or_false false b h = (refl, h)
or_false true b h = absurd (cc)

module _ (q : ℕ) where
  run-usr1 :
      (f : Processes) (hs : List Happening)
      → any (sends sigusr1 q) (calls_of hs) ≡ false
      → (f q).usr1 ≡ false
      → ((run f hs).0 q).usr1 ≡ false
  unfolding run happen calls_of
  run-usr1 f [] h k = k
  run-usr1 f (calls e ∷ hs) h k =
      let (own, rest) = or_false (sends sigusr1 q e) (any (sends sigusr1 q) (calls_of hs)) h in
      run-usr1 (happen f (calls e)).0 hs rest (receive-usr1 (f q) q e own k)
  run-usr1 f (moves p m ∷ hs) h k =
      run-usr1 (happen f (moves p m)).0 hs h
        (either_process (λ x. x.usr1 ≡ false) f q p m (move-usr1 (f q) m) k)

  run-quiet :
      (f : Processes) (hs : List Happening)
      → any (sends sigusr1 q) (calls_of hs) ≡ false
      → is_quiet (f q) ≡ true
      → is_quiet ((run f hs).0 q) ≡ true
  unfolding run happen calls_of
  run-quiet f [] h k = k
  run-quiet f (calls e ∷ hs) h k =
      let (own, rest) = or_false (sends sigusr1 q e) (any (sends sigusr1 q) (calls_of hs)) h in
      run-quiet (happen f (calls e)).0 hs rest (receive-quiet (f q) q e own k)
  run-quiet f (moves p m ∷ hs) h k =
      run-quiet (happen f (moves p m)).0 hs h
        (either_process (λ x. is_quiet x ≡ true) f q p m (move-quiet (f q) m) k)

  -- A child that is sent a ban, and no allowance, is quiet from then on.
  pub run-ban :
      (f : Processes) (hs : List Happening)
      → any (sends sigusr1 q) (calls_of hs) ≡ false
      → any (sends sigusr2 q) (calls_of hs) ≡ true
      → (f q).usr1 ≡ false
      → is_quiet ((run f hs).0 q) ≡ true
  unfolding run happen calls_of
  run-ban f [] h b k = absurd (cc)
  run-ban f (calls e ∷ hs) h b k =
      let (own, rest) = or_false (sends sigusr1 q e) (any (sends sigusr1 q) (calls_of hs)) h in
      elim (Bool-cases (sends sigusr2 q e)) [
        | inl banned ↦ run-quiet (happen f (calls e)).0 hs rest (receive-ban (f q) q e banned k)
        | inr other ↦
            run-ban (happen f (calls e)).0 hs rest (ground (arith, b, other))
              (receive-usr1 (f q) q e own k)
      ]
  run-ban f (moves p m ∷ hs) h b k =
      run-ban (happen f (moves p m)).0 hs h b
        (either_process (λ x. x.usr1 ≡ false) f q p m (move-usr1 (f q) m) k)

  -- A quiet child at which no ban waits, and which has not passed its test, prints nothing until the
  -- parent calls.
  pub run-silent :
      (f : Processes) (hs : List Happening)
      → calls_of hs ≡ []
      → is_quiet (f q) ≡ true
      → (f q).usr2 ≡ false
      → is_printing (f q).child.pc ≡ false
      → prints q (run f hs).1 ≡ false
  unfolding run happen calls_of
  run-silent f [] h k u d = refl
  run-silent f (calls e ∷ hs) h k u d = absurd (cc)
  run-silent f (moves p m ∷ hs) h k u d =
      prints-append q (map (λ l. (p, l)) (move (f p) m).1) (run (happen f (moves p m)).0 hs).1
        (elim (ℕ_discrete p q) [
          | yes same ↦
              let silent : (move (f p) m).1 ≡ [] =
                subst (λ r. (move (f r) m).1 ≡ []) (sym same) (move-silent (f q) m d) in
              rw silent refl
          | no other ↦ prints_other p q (move (f p) m).1 (ground (arith, other))
        ])
        (run-silent (happen f (moves p m)).0 hs h
          (either_process (λ x. is_quiet x ≡ true) f q p m (move-quiet (f q) m) k)
          (either_process (λ x. x.usr2 ≡ false) f q p m (move-usr2 (f q) m) u)
          (either_process (λ x. is_printing x.child.pc ≡ false) f q p m (move-printing (f q) m k u)
            d))

pub any-append :
    {A : Type 0} (f : A → Bool) (xs ys : List A) → any f (xs ++ ys) ≡ any f xs || any f ys
any-append f [] ys = refl
any-append f (x ∷ xs) ys = ground (arith, any-append f xs ys)

pub or_true : (a : Bool) → (a || true) ≡ true
or_true true = refl
or_true false = refl

sent_self : (signal : Signal) (p : ℕ) → any (sends signal p) (kill (process p) signal ∷ []) ≡ true
sent_self sigterm p = ground arith
sent_self sigusr1 p = ground arith
sent_self sigusr2 p = ground arith

not_sent_slot :
    (pids : List Pid) (signal other : Signal) (i p : ℕ)
    → same_signal other signal ≡ false
    → any (sends other p) (kill_slot pids signal i) ≡ false
unfolding kill_slot
not_sent_slot pids signal other i p h = ground (arith, h)

-- A signal to all is sent to every child in its range, and no other signal is.
pub sent_from :
    (pids : List Pid) (signal : Signal) (i n j p : ℕ)
    → i ≤ j
    → j < i + n
    → get_elem? pids j ≡ some (process p)
    → any (sends signal p) (signal_from pids signal i n) ≡ true
unfolding signal_from
sent_from pids signal i zero j p h k e = absurd (omega (arith, h, k))
sent_from pids signal i (suc n) j p h k e =
    any-append (sends signal p) (kill_slot pids signal i) (signal_from pids signal (i + 1) n)
    ∙ elim (ℕ_discrete i j) [
      | yes same ↦
          let own : any (sends signal p) (kill_slot pids signal i) ≡ true =
            ap (any (sends signal p)) (
              kill_slot_lem pids signal i (process p)
                (subst (λ r. get_elem? pids r ≡ some (process p)) (sym same) e))
            ∙ sent_self signal p in
          rw own refl
      | no other ↦
          let rest : any (sends signal p) (signal_from pids signal (i + 1) n) ≡ true =
            sent_from pids signal (i + 1) n j p (omega (arith, h, other)) (omega (arith, k)) e in
          rw rest (or_true (any (sends signal p) (kill_slot pids signal i)))
    ]

pub not_sent_from :
    (pids : List Pid) (signal other : Signal) (i n p : ℕ)
    → same_signal other signal ≡ false
    → any (sends other p) (signal_from pids signal i n) ≡ false
unfolding signal_from
not_sent_from pids signal other i zero p h = refl
not_sent_from pids signal other i (suc n) p h =
    any-append (sends other p) (kill_slot pids signal i) (signal_from pids signal (i + 1) n)
    ∙ rw (not_sent_slot pids signal other i p h) (not_sent_from pids signal other (i + 1) n p h)

module _ (s : Parent) (input : Input) (n target : ℕ) (e : input.number ≡ pos n) (h : n < s.children)
    (slot : get_elem? s.child_pid_mas n ≡ some (process target)) where
  pub prior_calls :
      prior_command s input
      ≡ ban_all_stats s.child_pid_mas s.children ++ (alarm 9 ∷ kill (process target) sigusr1 ∷ [])
  unfolding prior_command kill_at kill_slot
  prior_calls =
      let below : ltb n s.children ≡ true = ground (arith, h) in
      rw (e, below, kill_slot_lem s.child_pid_mas sigusr1 n (process target) slot) refl

  no_allowance : (p : ℕ) → any (sends sigusr1 p) (ban_all_stats s.child_pid_mas s.children) ≡ false
  unfolding ban_all_stats
  no_allowance p = not_sent_from s.child_pid_mas sigusr2 sigusr1 0 s.children p refl

  pub ban_for :
      (m p : ℕ)
      → m < s.children
      → get_elem? s.child_pid_mas m ≡ some (process p)
      → any (sends sigusr2 p) (ban_all_stats s.child_pid_mas s.children) ≡ true
  unfolding ban_all_stats
  ban_for m p hm slot_m =
      sent_from s.child_pid_mas sigusr2 0 s.children m p (omega arith) (omega (arith, hm)) slot_m

  -- After 'p' with the number of a child, another child in the table at which no allowance waited
  -- before prints nothing more once it has taken its ban and is not between its test and its output,
  -- in whatever order the calls and the moves of all children come, as long as the parent makes no
  -- further calls.
  pub only_target_prints :
      (m p : ℕ) (f : Processes) (hs later : List Happening)
      → m < s.children
      → get_elem? s.child_pid_mas m ≡ some (process p)
      → p ≢ target
      → (f p).usr1 ≡ false
      → calls_of hs ≡ prior_command s input
      → ((run f hs).0 p).usr2 ≡ false
      → is_printing ((run f hs).0 p).child.pc ≡ false
      → calls_of later ≡ []
      → prints p (run (run f hs).0 later).1 ≡ false
  only_target_prints m p f hs later hm slot_m ne none_waits made taken idle no_calls =
      let bans = ban_all_stats s.child_pid_mas s.children in
      let rest = alarm 9 ∷ kill (process target) sigusr1 ∷ [] in
      let allowance : any (sends sigusr1 p) (calls_of hs) ≡ false =
        ap (any (sends sigusr1 p)) (made ∙ prior_calls)
        ∙ any-append (sends sigusr1 p) bans rest
        ∙ rw (no_allowance p) (ground (arith, ne)) in
      let ban : any (sends sigusr2 p) (calls_of hs) ≡ true =
        ap (any (sends sigusr2 p)) (made ∙ prior_calls)
        ∙ any-append (sends sigusr2 p) bans rest
        ∙ rw (ban_for m p hm slot_m) refl in
      run-silent p (run f hs).0 later no_calls (run-ban p f hs allowance ban none_waits) taken idle
