-- ===== src/Family/Arrivals.antt =====
-- Signals that wait for a child of Lab3 until it takes them.

use osisp_labs.Common.{
  either_keeps, ℕ, ◌≡◌, refl, ap, ◌∙◌, sym, subst, Bool, true, false, not, ◌&&◌, List, [], ◌∷◌, map,
  arith, ◌==◌, Bool-cases, inl, inr,
}
use osisp_labs.Supervisor.{
  process, minus_one, Signal, sigterm, sigusr1, sigusr2, Effect, kill, wait, spawned, alarm, listed,
}
use osisp_labs.Statistics
use osisp_labs.Family.{
  arrived, Process, receive, Move, works, takes_usr1, takes_usr2, move, Happening, calls, moves,
  Processes, happen, run,
}
use osisp_labs.Family.Quiet.{
  sends, any, is_quiet, is_printing, same_signal, move-quiet, move-usr2, works-printing,
}
use osisp_labs.Family.Prior.{or_false}

-- Has the signal had its first effect: does it wait, or has the process ended?
abbrev waiting : Signal → Process → Bool
waiting sigterm x = not x.alive
waiting sigusr1 x = x.usr1
waiting sigusr2 x = x.usr2

arrived-keeps :
    (signal other : Signal) (x : Process)
    → waiting signal x ≡ true
    → waiting signal (arrived x other) ≡ true
arrived-keeps sigterm sigterm x h = refl
arrived-keeps sigterm sigusr1 x h = h
arrived-keeps sigterm sigusr2 x h = h
arrived-keeps sigusr1 sigterm x h = h
arrived-keeps sigusr1 sigusr1 x h = refl
arrived-keeps sigusr1 sigusr2 x h = h
arrived-keeps sigusr2 sigterm x h = h
arrived-keeps sigusr2 sigusr1 x h = h
arrived-keeps sigusr2 sigusr2 x h = refl

arrived-waiting :
    (signal other : Signal) (x : Process)
    → same_signal signal other ≡ true
    → waiting signal (arrived x other) ≡ true
arrived-waiting sigterm sigterm x h = refl
arrived-waiting sigterm sigusr1 x h = absurd (cc)
arrived-waiting sigterm sigusr2 x h = absurd (cc)
arrived-waiting sigusr1 sigterm x h = absurd (cc)
arrived-waiting sigusr1 sigusr1 x h = refl
arrived-waiting sigusr1 sigusr2 x h = absurd (cc)
arrived-waiting sigusr2 sigterm x h = absurd (cc)
arrived-waiting sigusr2 sigusr1 x h = absurd (cc)
arrived-waiting sigusr2 sigusr2 x h = refl

and_true : (a b : Bool) → (a && b) ≡ true → (a ≡ true) × (b ≡ true)
and_true true true h = (refl, refl)
and_true true false h = absurd (cc)
and_true false b h = absurd (cc)

module _ (q : ℕ) where
  keeps_waiting :
      (signal : Signal) (x : Process) (e : Effect)
      → waiting signal x ≡ true
      → waiting signal (receive q x e) ≡ true
  keeps_waiting signal x (kill (process p) other) h =
      either_keeps (λ y. waiting signal y ≡ true) (p == q) (arrived x other) x
        (arrived-keeps signal other x h) h
  keeps_waiting signal x (kill minus_one other) h = arrived-keeps signal other x h
  keeps_waiting signal x wait h = h
  keeps_waiting signal x (spawned _) h = h
  keeps_waiting signal x (alarm _) h = h
  keeps_waiting signal x (listed _) h = h

  starts_waiting :
      (signal : Signal) (x : Process) (e : Effect)
      → sends signal q e ≡ true
      → waiting signal (receive q x e) ≡ true
  starts_waiting signal x (kill (process p) other) h =
      let (same, own) = and_true (same_signal signal other) (p == q) h in
      rw own (arrived-waiting signal other x same)
  starts_waiting signal x (kill minus_one other) h =
      arrived-waiting signal other x (and_true (same_signal signal other) true h).0
  starts_waiting signal x wait h = absurd (cc)
  starts_waiting signal x (spawned _) h = absurd (cc)
  starts_waiting signal x (alarm _) h = absurd (cc)
  starts_waiting signal x (listed _) h = absurd (cc)

  stays_alive :
      (x : Process) (e : Effect)
      → sends sigterm q e ≡ false
      → x.alive ≡ true
      → (receive q x e).alive ≡ true
  stays_alive x (kill (process p) sigterm) h k = ground (arith, h, k)
  stays_alive x (kill (process p) sigusr1) h k =
      either_keeps (λ y. y.alive ≡ true) (p == q) (arrived x sigusr1) x k k
  stays_alive x (kill (process p) sigusr2) h k =
      either_keeps (λ y. y.alive ≡ true) (p == q) (arrived x sigusr2) x k k
  stays_alive x (kill minus_one sigterm) h k = absurd (cc)
  stays_alive x (kill minus_one sigusr1) h k = k
  stays_alive x (kill minus_one sigusr2) h k = k
  stays_alive x wait h k = k
  stays_alive x (spawned _) h k = k
  stays_alive x (alarm _) h k = k
  stays_alive x (listed _) h k = k

  abbrev after_calls : Processes → List Effect → Process
  after_calls f es = (run f (map calls es)).0 q

  calls_keep :
      (signal : Signal) (f : Processes) (es : List Effect)
      → waiting signal (f q) ≡ true
      → waiting signal (after_calls f es) ≡ true
  unfolding run happen
  calls_keep signal f [] h = h
  calls_keep signal f (e ∷ es) h =
      calls_keep signal (happen f (calls e)).0 es (keeps_waiting signal (f q) e h)

  -- What is sent waits at the end.
  pub calls_wait :
      (signal : Signal) (f : Processes) (es : List Effect)
      → any (sends signal q) es ≡ true
      → waiting signal (after_calls f es) ≡ true
  unfolding run happen
  calls_wait signal f [] h = absurd (cc)
  calls_wait signal f (e ∷ es) h = elim (Bool-cases (sends signal q e)) [
    | inl sent ↦ calls_keep signal (happen f (calls e)).0 es (starts_waiting signal (f q) e sent)
    | inr other ↦ calls_wait signal (happen f (calls e)).0 es (ground (arith, h, other))
  ]

  pub calls_alive :
      (f : Processes) (es : List Effect)
      → any (sends sigterm q) es ≡ false
      → (f q).alive ≡ true
      → (after_calls f es).alive ≡ true
  unfolding run happen
  calls_alive f [] h k = k
  calls_alive f (e ∷ es) h k =
      let (own, rest) = or_false (sends sigterm q e) (any (sends sigterm q) es) h in
      calls_alive (happen f (calls e)).0 es rest (stays_alive (f q) e own k)

  -- The child takes its allowance first and its ban after it, and takes a step.
  abbrev pub wrong_order : List Happening
  wrong_order = moves q takes_usr1 ∷ moves q takes_usr2 ∷ moves q works ∷ []

  abbrev IsSilent : Process → Type 0
  IsSilent x = (is_quiet x ≡ true) × (x.usr2 ≡ false) × (is_printing x.child.pc ≡ false)

  own_process : (f : Processes) (m : Move) → ((happen f (moves q m)).0 q) ≡ (move (f q) m).0
  unfolding happen
  own_process f m = let same : (q == q) ≡ true = ground arith in rw same refl

  took_both :
      (x : Process)
      → x.alive ≡ true
      → x.usr1 ≡ true
      → x.usr2 ≡ true
      → let y = (move (move x takes_usr1).0 takes_usr2).0 in
        (y.alive ≡ true) × (is_quiet y ≡ true) × (y.usr2 ≡ false)
  unfolding move Statistics.step
  took_both x up a b = (rw (up, a, b) refl, rw (up, a, b) refl, rw (up, a, b) refl)

  stepped :
      (x : Process)
      → x.alive ≡ true
      → is_quiet x ≡ true
      → x.usr2 ≡ false
      → IsSilent (move x works).0
  stepped x up h k = (move-quiet x works h, move-usr2 x works k, works-printing x up h k)

  pub wrong_order-IsSilent :
      (f : Processes)
      → (f q).alive ≡ true
      → (f q).usr1 ≡ true
      → (f q).usr2 ≡ true
      → IsSilent ((run f wrong_order).0 q)
  unfolding run
  wrong_order-IsSilent f up a b =
      let (up', quiet, taken) = took_both (f q) up a b in
      let g = (happen (happen f (moves q takes_usr1)).0 (moves q takes_usr2)).0 in
      let at : g q ≡ (move (move (f q) takes_usr1).0 takes_usr2).0 =
        own_process (happen f (moves q takes_usr1)).0 takes_usr2
        ∙ ap (λ x. (move x takes_usr2).0) (own_process f takes_usr1) in
      subst IsSilent (sym (own_process g works ∙ ap (λ x. (move x works).0) at))
        (stepped (move (move (f q) takes_usr1).0 takes_usr2).0 up' quiet taken)
