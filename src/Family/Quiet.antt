-- ===== src/Family/Quiet.antt =====
-- A child of Lab3/lab3.c that is banned, or will be when it takes the signals that wait at it.
use osisp_labs.Common.{
  ℕ, ◌≡◌, refl, ap, ◌∙◌, Bool, true, false, not, ◌&&◌, ◌||◌, List, [], ◌∷◌, arith, ◌==◌, Bool-cases,
  inl, inr, ltb,
}
use osisp_labs.Supervisor.{
  Pid, process, minus_one, Signal, sigterm, sigusr1, sigusr2, Effect, kill, wait, spawned, alarm,
  listed,
}
use osisp_labs.Statistics
use osisp_labs.Statistics.{
  Child, Line, Pc, zero_first, zero_second, one_first, one_second, test, printing, reset_one_zero,
  reset_zero_one, reset_one_one, reset_zero_zero, reset_times, main_step, sigalrm, advance_by,
  pair_processing,
}
use osisp_labs.Family.{Process, receive, Move, works, ticks, takes_usr1, takes_usr2, move}

abbrev pub same_signal : Signal → Signal → Bool
same_signal sigterm sigterm = true
same_signal sigusr1 sigusr1 = true
same_signal sigusr2 sigusr2 = true
same_signal _ _ = false

abbrev pub reaches : ℕ → Pid → Bool
reaches q (process p) = p == q
reaches q minus_one = true

-- Does the call send this signal to the process?
abbrev pub sends : Signal → ℕ → Effect → Bool
sends signal q (kill pid other) = same_signal signal other && reaches q pid
sends signal q _ = false

abbrev pub any : {A : Type 0} → (A → Bool) → List A → Bool
any f [] = false
any f (x ∷ xs) = f x || any f xs

-- No allowance waits, and the child is banned or a ban waits.
abbrev pub is_quiet : Process → Bool
is_quiet x = not x.usr1 && (x.usr2 || not x.child.permission_output)

advance_permission :
    (p : Pc) (c : Child) → (advance_by p c).0.permission_output ≡ c.permission_output
unfolding advance_by
advance_permission zero_first c = refl
advance_permission zero_second c = refl
advance_permission one_first c = refl
advance_permission one_second c = refl
advance_permission printing c = refl
advance_permission test c = elim (Bool-cases (ltb 101 c.count_times && c.permission_output)) [
  | inl due ↦ rw due refl
  | inr no_line ↦ rw no_line refl
]
advance_permission reset_one_zero c = refl
advance_permission reset_zero_one c = refl
advance_permission reset_one_one c = refl
advance_permission reset_zero_zero c = refl
advance_permission reset_times c = refl

tick_permission : (c : Child) → (pair_processing c).permission_output ≡ c.permission_output
unfolding pair_processing
tick_permission c = ground arith

-- Between the test and the output.
abbrev pub is_printing : Pc → Bool
is_printing printing = true
is_printing _ = false

-- A banned child passes no test.
advance_printing :
    (p : Pc) (c : Child) → c.permission_output ≡ false → is_printing (advance_by p c).0.pc ≡ false
unfolding advance_by
advance_printing zero_first c h = refl
advance_printing zero_second c h = refl
advance_printing one_first c h = refl
advance_printing one_second c h = refl
advance_printing test c h = ground (arith, h)
advance_printing printing c h = refl
advance_printing reset_one_zero c h = refl
advance_printing reset_zero_one c h = refl
advance_printing reset_one_one c h = refl
advance_printing reset_zero_zero c h = refl
advance_printing reset_times c h = refl

tick_printing : (c : Child) → (pair_processing c).pc ≡ c.pc
unfolding pair_processing
tick_printing c = ground arith

-- Only a child that has passed the test prints.
advance_banned : (p : Pc) (c : Child) → is_printing p ≡ false → (advance_by p c).1 ≡ []
unfolding advance_by
advance_banned zero_first c h = refl
advance_banned zero_second c h = refl
advance_banned one_first c h = refl
advance_banned one_second c h = refl
advance_banned test c h = ground arith
advance_banned printing c h = absurd (cc)
advance_banned reset_one_zero c h = refl
advance_banned reset_zero_one c h = refl
advance_banned reset_one_one c h = refl
advance_banned reset_zero_zero c h = refl
advance_banned reset_times c h = refl

module _ (x : Process) where
  pub move-usr1 : (m : Move) → x.usr1 ≡ false → (move x m).0.usr1 ≡ false
  unfolding move
  move-usr1 works h = ground (arith, h)
  move-usr1 ticks h = ground (arith, h)
  move-usr1 takes_usr1 h = ground (arith, h)
  move-usr1 takes_usr2 h = ground (arith, h)

  pub move-quiet : (m : Move) → is_quiet x ≡ true → is_quiet (move x m).0 ≡ true
  unfolding move Statistics.step
  move-quiet works h = ground (arith, h, advance_permission x.child.pc x.child)
  move-quiet ticks h = ground (arith, h, tick_permission x.child)
  move-quiet takes_usr1 h = ground (arith, h)
  move-quiet takes_usr2 h = ground (arith, h)

  -- A quiet child at which no ban waits passes no test.
  pub move-printing :
      (m : Move)
      → is_quiet x ≡ true
      → x.usr2 ≡ false
      → is_printing x.child.pc ≡ false
      → is_printing (move x m).0.child.pc ≡ false
  unfolding move Statistics.step
  move-printing works h k p = elim (Bool-cases x.alive) [
    | inl up ↦ rw up (advance_printing x.child.pc x.child (ground (arith, h, k)))
    | inr down ↦ rw down p
  ]
  move-printing ticks h k p = elim (Bool-cases x.alive) [
    | inl up ↦ rw up (ap is_printing (tick_printing x.child) ∙ p)
    | inr down ↦ rw down p
  ]
  move-printing takes_usr1 h k p = elim (Bool-cases (x.alive && x.usr1)) [
    | inl up ↦ rw up p
    | inr down ↦ rw down p
  ]
  move-printing takes_usr2 h k p = elim (Bool-cases (x.alive && x.usr2)) [
    | inl up ↦ rw up p
    | inr down ↦ rw down p
  ]

  -- After a step of its loop it has none behind it.
  pub works-printing :
      x.alive ≡ true
      → is_quiet x ≡ true
      → x.usr2 ≡ false
      → is_printing (move x works).0.child.pc ≡ false
  unfolding move Statistics.step
  works-printing up h k = rw up (advance_printing x.child.pc x.child (ground (arith, h, k)))

  pub move-silent : (m : Move) → is_printing x.child.pc ≡ false → (move x m).1 ≡ []
  unfolding move Statistics.step
  move-silent works h = ground (arith, h, advance_banned x.child.pc x.child)
  move-silent ticks h = ground arith
  move-silent takes_usr1 h = ground arith
  move-silent takes_usr2 h = ground arith

  pub move-usr2 : (m : Move) → x.usr2 ≡ false → (move x m).0.usr2 ≡ false
  unfolding move
  move-usr2 works h = ground (arith, h)
  move-usr2 ticks h = ground (arith, h)
  move-usr2 takes_usr1 h = ground (arith, h)
  move-usr2 takes_usr2 h = ground (arith, h)

  pub receive-usr1 :
      (q : ℕ) (e : Effect)
      → sends sigusr1 q e ≡ false
      → x.usr1 ≡ false
      → (receive q x e).usr1 ≡ false
  receive-usr1 q (kill (process p) sigterm) h k = ground (arith, k)
  receive-usr1 q (kill (process p) sigusr1) h k = ground (arith, h, k)
  receive-usr1 q (kill (process p) sigusr2) h k = ground (arith, k)
  receive-usr1 q (kill minus_one sigterm) h k = k
  receive-usr1 q (kill minus_one sigusr1) h k = absurd (cc)
  receive-usr1 q (kill minus_one sigusr2) h k = k
  receive-usr1 q wait h k = k
  receive-usr1 q (spawned _) h k = k
  receive-usr1 q (alarm _) h k = k
  receive-usr1 q (listed _) h k = k

  pub receive-quiet :
      (q : ℕ) (e : Effect)
      → sends sigusr1 q e ≡ false
      → is_quiet x ≡ true
      → is_quiet (receive q x e) ≡ true
  receive-quiet q (kill (process p) sigterm) h k = ground (arith, k)
  receive-quiet q (kill (process p) sigusr1) h k = ground (arith, h, k)
  receive-quiet q (kill (process p) sigusr2) h k = ground (arith, k)
  receive-quiet q (kill minus_one sigterm) h k = k
  receive-quiet q (kill minus_one sigusr1) h k = absurd (cc)
  receive-quiet q (kill minus_one sigusr2) h k = ground (arith, k)
  receive-quiet q wait h k = k
  receive-quiet q (spawned _) h k = k
  receive-quiet q (alarm _) h k = k
  receive-quiet q (listed _) h k = k

  pub receive-ban :
      (q : ℕ) (e : Effect)
      → sends sigusr2 q e ≡ true
      → x.usr1 ≡ false
      → is_quiet (receive q x e) ≡ true
  receive-ban q (kill (process p) sigterm) h k = absurd (cc)
  receive-ban q (kill (process p) sigusr1) h k = absurd (cc)
  receive-ban q (kill (process p) sigusr2) h k = ground (arith, h, k)
  receive-ban q (kill minus_one sigterm) h k = absurd (cc)
  receive-ban q (kill minus_one sigusr1) h k = absurd (cc)
  receive-ban q (kill minus_one sigusr2) h k = ground (arith, k)
  receive-ban q wait h k = absurd (cc)
  receive-ban q (spawned _) h k = absurd (cc)
  receive-ban q (alarm _) h k = absurd (cc)
  receive-ban q (listed _) h k = absurd (cc)
