-- ===== src/FileServer/Clients/Alone.antt =====
-- Runs of Lab8/server.c with several clients, against a server for each of them alone.
use mathlib.Core.Option.{some-injective}
use native.Mathlib.Decide.{ℕ_discrete}
use osisp_labs.Common.{
  ◌>>=◌, defined_from, ℕ, ◌≡◌, refl, ap, ap₂, sym, subst, ◌∙◌, inl, inr, arith, Bool, true, false,
  Option-cases, none, some, List, [], ◌∷◌, ◌++◌, map, ◌==◌, if◌then◌else◌,
}
use osisp_labs.FileServer.{Session}
use osisp_labs.FileServer.Clients.{
  World, Server, moved, round, with_session, tagged, or_else, receive_for, act, step, run,
}
use osisp_labs.FileServer.Clients.Apart.{IsAbsolute, IsRooted, round_same, round-IsAbsolute}
use osisp_labs.FileServer.Clients.Replies.{
  Said, says, only, thread, AreAbsolute, replies_to-if, ServedAlone, Together, step_here,
}

module _ (w : World) (rooted : IsRooted w) (dir : List ℕ) where
  -- The process behind one round.
  abbrev behind : Said → Server → Session → Session → Bool → Server
  behind x v s s' connected = record v {
    work_dir = or_else (moved w v.work_dir x.command s) v.work_dir;
    sessions = with_session v.sessions x.client (if connected then some s' else none);
  }

  module _ (x : Said) (v : Server) (up : v.running ≡ true) where
    step_idle : v.sessions x.client ≡ none → step w (says x) v ≡ some (v, [])
    unfolding step act receive_for
    step_idle e = rw (up, e) refl

    step-round :
        (s s' : Session) (rs : List (List ℕ)) (connected : Bool)
        → v.sessions x.client ≡ some s
        → IsAbsolute s.dir_path
        → round w dir x.now x.command s ≡ some (rs, s', connected)
        → step w (says x) v ≡ some (behind x v s s' connected, tagged x.client rs)
    step-round s s' rs connected e h answered =
        step_here w v x.client x.now x.command s s' rs connected up e
          (round_same w rooted v.work_dir dir x.now x.command s h ∙ answered)

    thread_answered :
        (s s' : Session) (rs : List (List ℕ)) (connected : Bool) (xs : List Said)
        → round w dir x.now x.command s ≡ some (rs, s', connected)
        → thread w dir (some s) (x ∷ xs)
          ≡ (thread w dir (if connected then some s' else none) xs >>= λ later. some (rs ++ later))
    unfolding thread
    thread_answered s s' rs connected xs answered = rw (answered) refl

    answers :
        (s : Session) (xs : List Said) (r : List (List ℕ))
        → v.sessions x.client ≡ some s
        → thread w dir (v.sessions x.client) (only x.client (x ∷ xs)) ≡ some r
        → (o : List (List ℕ) × Session × Bool) × (round w dir x.now x.command s ≡ some o)
    unfolding thread
    answers s xs r e h =
        let own : (x.client == x.client) ≡ true = ground arith in
        let mine : thread w dir (v.sessions x.client) (only x.client (x ∷ xs))
            ≡ thread w dir (some s) (x ∷ only x.client xs) =
          ap₂ (thread w dir) e
            (ap (λ c. if c then x ∷ only x.client xs else only x.client xs) own) in
        let (o, answered, _) = defined_from (round w dir x.now x.command s) _ r (sym mine ∙ h) in
        (o, answered)

    -- What each client is still to get, behind a command of one of them.
    next_alone :
        (s s' : Session) (rs : List (List ℕ)) (connected : Bool) (xs : List Said) (j : ℕ)
        (r : List (List ℕ))
        → v.sessions x.client ≡ some s
        → round w dir x.now x.command s ≡ some (rs, s', connected)
        → thread w dir (v.sessions j) (only j (x ∷ xs)) ≡ some r
        → (r' : List (List ℕ)) × (thread w dir ((behind x v s s' connected).sessions j) (only j xs)
            ≡ some r')
          × (r ≡ (if x.client == j then rs ++ r' else r'))
    next_alone s s' rs connected xs j r e answered h = elim (ℕ_discrete x.client j) [
      | yes same ↦
          let own : (x.client == j) ≡ true = ground (arith, same) in
          let at : v.sessions j ≡ some s = ap v.sessions (sym same) ∙ e in
          let mine : thread w dir (v.sessions j) (only j (x ∷ xs))
              ≡ thread w dir (some s) (x ∷ only j xs) =
            ap₂ (thread w dir) at (ap (λ c. if c then x ∷ only j xs else only j xs) own) in
          let (r', later, last) =
            defined_from (thread w dir (if connected then some s' else none) (only j xs))
              (λ later. some (rs ++ later)) r
              (sym (thread_answered s s' rs connected (only j xs) answered) ∙ sym mine ∙ h) in
          rw own (r', later, sym (some-injective _ _ last))
      | no ne ↦
          let off : (x.client == j) ≡ false = ground (arith, ne) in
          let skipped : only j (x ∷ xs) ≡ only j xs =
            ap (λ c. if c then x ∷ only j xs else only j xs) off in
          rw off (r, ap (thread w dir (v.sessions j)) (sym skipped) ∙ h, refl)
    ]

    idle_alone :
        (xs : List Said) (j : ℕ)
        → v.sessions x.client ≡ none
        → thread w dir (v.sessions j) (only j (x ∷ xs)) ≡ thread w dir (v.sessions j) (only j xs)
    unfolding thread
    idle_alone xs j e = elim (ℕ_discrete x.client j) [
      | yes same ↦
          let own : (x.client == j) ≡ true = ground (arith, same) in
          let at : v.sessions j ≡ none = ap v.sessions (sym same) ∙ e in rw (own, at) refl
      | no ne ↦ let off : (x.client == j) ≡ false = ground (arith, ne) in rw off refl
    ]

    -- Paths stay absolute.
    behind-AreAbsolute :
        (s s' : Session) (rs : List (List ℕ)) (connected : Bool)
        → AreAbsolute v
        → v.sessions x.client ≡ some s
        → round w dir x.now x.command s ≡ some (rs, s', connected)
        → AreAbsolute (behind x v s s' connected)
    behind-AreAbsolute s s' rs connected h e answered j t at = elim (ℕ_discrete x.client j) [
      | yes same ↦
          let own : (x.client == j) ≡ true = ground (arith, same) in
          let there : (if connected then some s' else none) ≡ some t =
            ap (λ c. if c then (if connected then some s' else none) else v.sessions j) (sym own)
            ∙ at in
          stays connected there
      | no ne ↦
          let off : (x.client == j) ≡ false = ground (arith, ne) in
          h j t (
            ap (λ c. if c then (if connected then some s' else none) else v.sessions j) (sym off)
            ∙ at)
    ]
      where
        stays : (c : Bool) → (if c then some s' else none) ≡ some t → IsAbsolute t.dir_path
        stays true q =
            subst (λ u. IsAbsolute u.dir_path) (some-injective _ _ q)
              (round-IsAbsolute w rooted dir x.now x.command s (rs, s', connected) (h x.client s e)
                answered)
        stays false q = absurd (cc)

  run-step :
      (x : Said) (xs : List Said) (v v' : Server) (sent : List (ℕ × List ℕ))
      → step w (says x) v ≡ some (v', sent)
      → run w (map says (x ∷ xs)) v
        ≡ (run w (map says xs) v' >>= λ (v'', later). some (v'', sent ++ later))
  unfolding run
  run-step x xs v v' sent e = rw (e) refl

  -- On a file system where an absolute path means the same in every directory and the empty path
  -- leads nowhere: clients of a running server whose paths are absolute, and each of which could be
  -- served alone to its end, get exactly the replies of a server that serves each of them alone,
  -- in whatever order their commands come and wherever chdir takes the process.
  pub clients_apart :
      (xs : List Said) (v : Server)
      → v.running ≡ true
      → AreAbsolute v
      → (alone : ServedAlone w dir xs v.sessions) → Together w xs v (λ i. (alone i).0)
  unfolding run thread
  clients_apart [] v up absolute alone = (v, [], refl, λ i. some-injective _ _ (alone i).1)
  clients_apart (x ∷ xs) v up absolute alone = elim (Option-cases (v.sessions x.client)) [
    | inl e ↦
        let (v', sent, ran, same) =
          clients_apart xs v up absolute
            (λ j. ((alone j).0, sym (idle_alone x v up xs j e) ∙ (alone j).1)) in
        (v', sent, run-step x xs v v [] (step_idle x v up e) ∙ rw (ran) refl, same)
    | inr (s, e) ↦
        let ((rs, s', connected), answered) =
          answers x v up s xs (alone x.client).0 e (alone x.client).1 in
        let next : (j : ℕ)
            → (r' : List (List ℕ)) × (thread w dir ((behind x v s s' connected).sessions j)
                  (only j xs)
                ≡ some r')
              × ((alone j).0 ≡ (if x.client == j then rs ++ r' else r')) =
          λ j. next_alone x v up s s' rs connected xs j (alone j).0 e answered (alone j).1 in
        let (v', sent, ran, same) =
          clients_apart xs (behind x v s s' connected) up
            (behind-AreAbsolute x v up s s' rs connected absolute e answered)
            (λ j. ((next j).0, (next j).1)) in
        (
          v',
          tagged x.client rs ++ sent,
          run-step x xs v (behind x v s s' connected) (tagged x.client rs)
                (step-round x v up s s' rs connected e (absolute x.client s e) answered)
              ∙ rw (ran) refl,
          λ j.
              replies_to-if j x.client rs sent
              ∙ ap (λ l. if x.client == j then rs ++ l else l) (same j)
              ∙ sym (next j).2,
        )
  ]
