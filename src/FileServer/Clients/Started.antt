-- ===== src/FileServer/Clients/Started.antt =====
-- The process of Lab8/server.c from its start on: the paths of its clients.
use mathlib.Core.Option.{some-injective}
use native.Mathlib.Decide.{ℕ_discrete}
use osisp_labs.Common.{
  either_keeps, ◌>>=◌, defined_from, ℕ, ◌≡◌, refl, ap, sym, subst, ◌∙◌, Bool, true, false, Option,
  none, some, List, [], ◌∷◌, ◌==◌, if◌then◌else◌, equal_self, unequal,
}
use osisp_labs.FileServer.{Session, in_buffer, send_info_about_server}
use osisp_labs.FileServer.Connection.{Listening}
use osisp_labs.FileServer.Serving.{in_buffer-fits}
use osisp_labs.FileServer.Clients.{
  World, Server, Outcome, start_server, round, Event, accepts, fails, receives, stops, with_session,
  exited, receive_for, handle_connection, act, step, run,
}
use osisp_labs.FileServer.Clients.Apart.{IsAbsolute, IsRooted, round-IsAbsolute}
use osisp_labs.FileServer.Clients.Replies.{AreAbsolute}

-- The start directory and the directories of all clients have absolute paths.
pub record Inv (v : Server) : Type 0 where
  pub start : IsAbsolute v.start_dir
  pub sessions : AreAbsolute v

-- Of what an event leaves, if it leaves anything.
abbrev Kept : Outcome → Type 0
Kept none = Unit
Kept (some (v, sent)) = Inv v

-- One session more, or another one.
with_session-absolute :
    (f : ℕ → Option Session) (i : ℕ) (o : Option Session)
    → ((j : ℕ) (s : Session) → f j ≡ some s → IsAbsolute s.dir_path)
    → ((s : Session) → o ≡ some s → IsAbsolute s.dir_path)
    → (j : ℕ) (s : Session) → with_session f i o j ≡ some s
    → IsAbsolute s.dir_path
with_session-absolute f i o h k j s e = elim (ℕ_discrete i j) [
  | yes same ↦
      let at : (i == j) ≡ true = ap (λ m. i == m) (sym same) ∙ equal_self i in
      k s (ap (λ c. if c then o else f j) (sym at) ∙ e)
  | no ne ↦ h j s (ap (λ c. if c then o else f j) (sym (unequal i j ne)) ∙ e)
]

maybe-absolute :
    (c : Bool) (t : Session)
    → IsAbsolute t.dir_path
    → (s : Session) → (if c then some t else none) ≡ some s
    → IsAbsolute s.dir_path
maybe-absolute true t h s e = subst (λ u. IsAbsolute u.dir_path) (some-injective _ _ e) h
maybe-absolute false t h s e = absurd (cc)

bind-Kept :
    {A : Type 0} (o : Option A) (f : A → Outcome)
    → ((a : A) → o ≡ some a → Kept (f a))
    → Kept (o >>= f)
bind-Kept none f h = tt
bind-Kept (some a) f h = h a refl

some-Kept :
    (o : Outcome) (v : Server) (sent : List (ℕ × List ℕ)) → o ≡ some (v, sent) → Kept o → Inv v
some-Kept o v sent e h = let at : Kept (some (v, sent)) = subst Kept e h in at

module _ (w : World) (rooted : IsRooted w) where
  receive_for-Inv :
      (i : ℕ) (now command : List ℕ) (v : Server) (o : Option Session)
      → v.sessions i ≡ o
      → Inv v
      → Kept (receive_for w i now command v o)
  unfolding receive_for
  receive_for-Inv i now command v none e h = h
  receive_for-Inv i now command v (some s) e h =
      bind-Kept (round w v.work_dir now command s) _ (λ r answered. record {
        start = h.start;
        sessions = with_session-absolute v.sessions i (if r.2 then some r.1 else none) h.sessions (
            maybe-absolute r.2 r.1
              (round-IsAbsolute w rooted v.work_dir now command s r (h.sessions i s e) answered));
      })

  handle_connection-Inv :
      (now echo_buf : List ℕ) (v : Server) → Inv v → Kept (handle_connection w now echo_buf v)
  unfolding handle_connection
  handle_connection-Inv now echo_buf v h = bind-Kept (in_buffer 100 v.start_dir) _ (λ dir fits.
      let absolute : IsAbsolute dir =
        subst IsAbsolute (sym (in_buffer-fits 100 v.start_dir dir fits)) h.start in
      bind-Kept
        (send_info_about_server
          (record { now = now; info = w.info_file; entered = false; entries = none }))
        _
        (λ reply _. record {
          start = h.start;
          sessions =
              with_session-absolute v.sessions v.clients
                (some (record { dir_path = dir; echo_buf = echo_buf })) h.sessions
                (λ s e. subst (λ u. IsAbsolute u.dir_path) (some-injective _ _ e) absolute);
        }))

  act-Inv : (event : Event) (v : Server) → Inv v → Kept (act w event v)
  unfolding act
  act-Inv (accepts now echo_buf) v h = handle_connection-Inv now echo_buf v h
  act-Inv fails v h = record { start = h.start; sessions = h.sessions }
  act-Inv (receives i now command) v h = receive_for-Inv i now command v (v.sessions i) refl h
  act-Inv (stops i) v h =
      elim (v.sessions i)
        as (λ o. Kept (elim o as (λ _. Outcome) [ none ↦ some (v, []) | some s ↦ exited v ])) [
          | none ↦ h
          | some s ↦ record { start = h.start; sessions = h.sessions }
        ]

  run-Inv :
      (events : List Event) (v v' : Server) (sent : List (ℕ × List ℕ))
      → run w events v ≡ some (v', sent)
      → Inv v
      → Inv v'
  unfolding run step
  run-Inv [] v v' sent e h = subst (λ (u, _). Inv u) (some-injective _ _ e) h
  run-Inv (event ∷ events) v v' sent e h =
      let ((u, first), stepped, rest) = defined_from (step w event v) _ (v', sent) e in
      let next : Inv u =
        some-Kept (step w event v) u first stepped
          (either_keeps Kept v.running (act w event v) (some (v, [])) (act-Inv event v h) h) in
      let ((u', later), ran, last) = defined_from (run w events u) _ (v', sent) rest in
      subst (λ (t, _). Inv t) (some-injective _ _ last) (run-Inv events u u' later ran next)

  -- On a file system where an absolute path means the same in every directory and the empty path
  -- leads nowhere: a server that is started with an absolute path, whatever sockets it gets,
  -- keeps the paths of all its clients absolute, whatever they send and whoever comes and goes.
  pub started-AreAbsolute :
      (sockets : Listening) (work_dir path : List ℕ) (events : List Event) (v v' : Server)
      (sent : List (ℕ × List ℕ))
      → IsAbsolute path
      → start_server sockets work_dir path ≡ some v
      → run w events v ≡ some (v', sent)
      → AreAbsolute v'
  unfolding start_server
  started-AreAbsolute sockets work_dir path events v v' sent h started ran =
      let (dir, fits, rest) = defined_from (in_buffer 100 path) _ v started in
      let here : IsAbsolute dir = subst IsAbsolute (sym (in_buffer-fits 100 path dir fits)) h in
      let begun : Inv v =
        subst Inv (some-injective _ _ rest)
          (record { start = here; sessions = λ i s e. absurd (cc) }) in
      (run-Inv events v v' sent ran begun).sessions
