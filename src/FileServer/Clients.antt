-- ===== src/FileServer/Clients.antt =====
-- `main`, `handleConnection` and `waitMessage` of Lab8/server.c: a thread for each client, in one
-- process with one directory. What happens next is an event; a round of a thread is one event.
-- `none` is undefined behaviour of the program.
pub mod Apart
pub mod Replies
pub mod Alone
pub mod Started
pub mod Shared
mod Tests
use osisp_labs.Common.{
  ◌>>=◌, ℕ, zero, suc, ◌+◌, Bool, true, false, Option, none, some, List, [], ◌∷◌, ◌++◌, map, ◌==◌,
  ltb, if◌then◌else◌, length,
}
use osisp_labs.FileServer.{
  in_buffer, Input, Session, Entry, Command, cd, parse_command, argument, target_path,
  send_info_about_server, serve,
}
use osisp_labs.FileServer.Connection.{Listening, set_connection}

-- The file system, as the calls see it from the directory of the process: the new directory of
-- `chdir`, and what `opendir` and the loop over it find. The info file has an absolute name.
pub record World : Type 0 where
  pub chdir : List ℕ → List ℕ → Option (List ℕ)
  pub opendir : List ℕ → List ℕ → Option (List Entry)
  pub info_file : Option (List ℕ)

-- The process: is it up, its directory, `startDir` of `main`, the number of clients that have been
-- accepted, and the variables of the threads that run.
pub record Server : Type 0 where
  pub running : Bool
  pub work_dir : List ℕ
  pub start_dir : List ℕ
  pub clients : ℕ
  pub sessions : ℕ → Option Session

-- `main` up to its loop. A call of `setConnection` that fails may end it.
unfoldable pub start_server : Listening → List ℕ → List ℕ → Option Server
unfolding set_connection
start_server sockets work_dir path = do
  start_dir ← in_buffer 100 path
  some (record {
    running = (set_connection sockets).1;
    work_dir = work_dir;
    start_dir = start_dir;
    clients = 0;
    sessions = λ _. none;
  })

-- The path that a command makes `changeDirectory` try.
abbrev pub tried_path : List ℕ → Session → Option (List ℕ)
tried_path command s = do new_dir ← argument 3 command; target_path s.dir_path new_dir

abbrev pub is_some {ℓ} : {A : Type ℓ} → Option A → Bool
is_some none = false
is_some (some a) = true

module _ (w : World) where
  -- The directory of the process behind a command, if that changes it.
  unfoldable pub moved : List ℕ → List ℕ → Session → Option (List ℕ)
  unfolding parse_command argument target_path
  moved work_dir command s = elim (parse_command command) [
    | cd ↦ tried_path command s >>= w.chdir work_dir
    | _ ↦ none
  ]

  -- What the system gives to a round.
  abbrev pub input_at : List ℕ → List ℕ → List ℕ → Session → Input
  input_at work_dir now command s = record {
    now = now;
    info = w.info_file;
    entered = is_some (moved work_dir command s);
    entries = w.opendir work_dir s.dir_path;
  }

  -- A round of `waitConnection` in a process with this directory.
  unfoldable pub round :
      List ℕ → List ℕ → List ℕ → Session → Option (List (List ℕ) × Session × Bool)
  unfolding moved serve
  round work_dir now command s = serve (input_at work_dir now command s) command s

-- What happens next in the process. `main` has `accept` and `pthread_create` succeed, with what
-- `echoBuf` holds in the new thread, or one of them fails; a thread reads a command, or the end of
-- its connection or an error.
pub data Event : Type 0 where
  accepts : List ℕ → List ℕ → Event
  fails : Event
  receives : ℕ → List ℕ → List ℕ → Event
  stops : ℕ → Event

abbrev pub with_session : (ℕ → Option Session) → ℕ → Option Session → ℕ → Option Session
with_session sessions i o = λ j. if i == j then o else sessions j

abbrev pub tagged : ℕ → List (List ℕ) → List (ℕ × List ℕ)
tagged i replies = map (λ r. (i, r)) replies

abbrev pub or_else : Option (List ℕ) → List ℕ → List ℕ
or_else none d = d
or_else (some x) d = x

-- The state of the process and what it sends, with the number of the client it is sent to.
abbrev pub Outcome : Type 0
Outcome = Option (Server × List (ℕ × List ℕ))

-- `exit`, in whatever thread, ends the process.
abbrev pub exited : Server → Outcome
exited v = some (record v { running = false }, [])

module _ (w : World) where
  -- A command of a client that has a thread.
  unfoldable pub receive_for : ℕ → List ℕ → List ℕ → Server → Option Session → Outcome
  unfolding round moved
  receive_for i now command v none = some (v, [])
  receive_for i now command v (some s) = do
    (replies, s', connected) ← round w v.work_dir now command s
    some (
      record v {
        work_dir = or_else (moved w v.work_dir command s) v.work_dir;
        sessions = with_session v.sessions i (if connected then some s' else none);
      },
      tagged i replies,
    )

  -- `handleConnection` up to the loop of `waitConnection`
  unfoldable pub handle_connection : List ℕ → List ℕ → Server → Outcome
  unfolding send_info_about_server
  handle_connection now echo_buf v = do
    dir_path ← in_buffer 100 v.start_dir
    reply ←
        send_info_about_server
          (record { now = now; info = w.info_file; entered = false; entries = none })
    some (
      record v {
        clients = v.clients + 1;
        sessions =
            with_session v.sessions v.clients
              (some (record { dir_path = dir_path; echo_buf = echo_buf }));
      },
      tagged v.clients (reply ∷ []),
    )

  unfoldable pub act : Event → Server → Outcome
  unfolding receive_for handle_connection
  act (accepts now echo_buf) v = handle_connection now echo_buf v
  act fails v = exited v
  act (receives i now command) v = receive_for i now command v (v.sessions i)
  act (stops i) v = elim (v.sessions i) [ none ↦ some (v, []) | some s ↦ exited v ]

  unfoldable pub step : Event → Server → Outcome
  unfolding act
  step event v = if v.running then act event v else some (v, [])

  unfoldable pub run : List Event → Server → Outcome
  unfolding step
  run [] v = some (v, [])
  run (event ∷ events) v = do
    (v', sent) ← step event v
    (v'', later) ← run events v'
    some (v'', sent ++ later)
