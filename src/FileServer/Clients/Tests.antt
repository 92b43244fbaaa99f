-- ===== src/FileServer/Clients/Tests.antt =====
-- A server of Lab8 with clients in the directories /a and a, and the theorems at it.
use mathlib.Core.Option.{some-injective}
use osisp_labs.Common.{
  ◌≢◌, length, ℕ, zero, suc, ◌≡◌, refl, arith, ap, subst, ◌∙◌, Bool, true, Option, none, some, List,
  [], ◌∷◌, ◌++◌, replicate, ◌==◌, if◌then◌else◌,
}
use osisp_labs.FileServer.Connection.{Listening}
use osisp_labs.FileServer.{
  zeros, Session, Entry, other, directory, zeros, word_done, entry_lines, starts_with,
  parse_command, argument, target_path,
}
use osisp_labs.FileServer.Clients.{
  Event, accepts, start_server, World, Server, receives, run, round,
}
use osisp_labs.FileServer.Clients.Apart.{IsAbsolute, IsRooted}
use osisp_labs.FileServer.Clients.Replies.{
  AreAbsolute, Said, only, replies_to, thread, ServedAlone, Together,
}
use osisp_labs.FileServer.Clients.Alone.{clients_apart}
use osisp_labs.FileServer.Clients.Started.{started-AreAbsolute}
use osisp_labs.FileServer.Clients.Shared.{cd_moves_others}

abbrev slash : List ℕ
slash = b'/' ∷ []

-- Files: every absolute path is a directory with one file, and so is every relative one in `slash`;
-- in other directories a relative path leads nowhere.
abbrev absolute : List ℕ → Bool
absolute path = starts_with path slash

abbrev enters : List ℕ → List ℕ → Option (List ℕ)
enters dir [] = none
enters dir (c ∷ path) =
    if c == b'/'
    then some (c ∷ path)
    else if starts_with dir (b'/' ∷ b'a' ∷ [])
    then none
    else some (b'/' ∷ c ∷ path)

abbrev finds : List ℕ → List ℕ → Option (List Entry)
finds dir [] = none
finds dir (c ∷ path) =
    if c == b'/'
    then some (record { name = c ∷ path; kind = other } ∷ [])
    else some (record { name = dir; kind = directory } ∷ [])

abbrev world : World
world = record { chdir = enters; opendir = finds; info_file = some (b'i' ∷ []) }

same_absolute : (a b path : List ℕ) → IsAbsolute path → enters a path ≡ enters b path
same_absolute a b [] h = absurd h
same_absolute a b (c ∷ path) h = ground (arith, h)

same_found : (a b path : List ℕ) → IsAbsolute path → finds a path ≡ finds b path
same_found a b [] h = absurd h
same_found a b (c ∷ path) h = ground (arith, h)

world-IsRooted : IsRooted world
world-IsRooted = record {
  chdir_absolute = same_absolute;
  opendir_absolute = same_found;
  chdir_empty = λ a. refl;
}

-- 23 characters
abbrev now : List ℕ
now = replicate 23 b'0'

abbrev line : List ℕ → List ℕ
line text = text ++ (b' ' ∷ b'-' ∷ b' ' ∷ now)

-- "cd b" and "list", stamped
abbrev cd_b : List ℕ
cd_b = line (b'c' ∷ b'd' ∷ b' ' ∷ b'b' ∷ [])

abbrev list_it : List ℕ
list_it = line (b'l' ∷ b'i' ∷ b's' ∷ b't' ∷ [])

abbrev at : List ℕ → Session
at path = record { dir_path = path; echo_buf = zeros }

-- Two clients in the same directory.
abbrev server_at : List ℕ → Server
server_at path = record {
  running = true;
  work_dir = slash;
  start_dir = path;
  clients = 2;
  sessions = λ i. if i == 0 then some (at path) else if i == 1 then some (at path) else none;
}

abbrev in_a : List ℕ
in_a = b'/' ∷ b'a' ∷ []

abbrev talk : List Said
talk =
    record { client = 0; now = now; command = cd_b }
    ∷ record { client = 1; now = now; command = list_it }
    ∷ []

no_third : (path : List ℕ) (i : ℕ) → (server_at path).sessions (suc (suc i)) ≡ none
no_third path i = ground arith

no_thread : (dir : List ℕ) (xs : List Said) → thread world dir none xs ≡ some []
unfolding thread
no_thread dir [] = refl
no_thread dir (x ∷ xs) = no_thread dir xs

talk-IsAbsolute :
    (i : ℕ) (s : Session) → (server_at in_a).sessions i ≡ some s → IsAbsolute s.dir_path
talk-IsAbsolute zero s e = subst (λ t. IsAbsolute t.dir_path) (some-injective _ _ e) refl
talk-IsAbsolute (suc zero) s e = subst (λ t. IsAbsolute t.dir_path) (some-injective _ _ e) refl
talk-IsAbsolute (suc (suc i)) s e = absurd (cc (no_third in_a i, e))

talk-alone : ServedAlone world slash talk (server_at in_a).sessions
unfolding thread
talk-alone zero = (_, refl)
talk-alone (suc zero) = (_, refl)
talk-alone (suc (suc i)) = (
  [],
  ap (λ o. thread world slash o (only (suc (suc i)) talk)) (no_third in_a i)
      ∙ no_thread slash (only (suc (suc i)) talk),
)

clients_apart_example : Together world talk (server_at in_a) (λ i. (talk-alone i).0)
clients_apart_example =
    clients_apart world world-IsRooted slash talk (server_at in_a) refl talk-IsAbsolute talk-alone

-- "a", and "/a/b"
abbrev here : List ℕ
here = b'a' ∷ []

abbrev a_b : List ℕ
a_b = b'a' ∷ b'/' ∷ b'b' ∷ []

abbrev before_cd : List Entry
before_cd = record { name = slash; kind = directory } ∷ []

abbrev behind_cd : List Entry
behind_cd = record { name = b'/' ∷ a_b; kind = directory } ∷ []

abbrev size_of_first : List (List ℕ) → ℕ
size_of_first [] = 0
size_of_first (line ∷ lines) = length line

other_lines : entry_lines behind_cd ≢ entry_lines before_cd
unfolding entry_lines
other_lines e = let sizes : 6 ≡ 3 = ap size_of_first e in absurd (omega (arith, sizes))

cd_moves_others_example :
    (v1 v2 : Server) × (before behind : List (ℕ × List ℕ)) × (run world
        (receives 1 now list_it ∷ [])
        (server_at here)
      ≡ some (v1, before))
    × (run world (receives 0 now cd_b ∷ receives 1 now list_it ∷ []) (server_at here)
        ≡ some (v2, behind))
    × (replies_to 1 before ≡ entry_lines before_cd ++ (word_done ∷ []))
    × (replies_to 1 behind ≡ entry_lines behind_cd ++ (word_done ∷ []))
    × (replies_to 1 behind ≢ replies_to 1 before)
unfolding parse_command argument target_path round
cd_moves_others_example =
    cd_moves_others world (server_at here) 0 1 now cd_b now list_it a_b (b'/' ∷ a_b) (at here)
      (at here) _ _ _ before_cd behind_cd refl (λ e. absurd (omega (arith, e))) refl refl refl refl
      refl refl refl refl refl other_lines

abbrev first_events : List Event
first_events = accepts now zeros ∷ receives 0 now cd_b ∷ []

abbrev or_server : Option (Server × List (ℕ × List ℕ)) → Server × List (ℕ × List ℕ)
or_server none = (server_at in_a, [])
or_server (some r) = r

abbrev new_server : Server
new_server = record {
  running = true;
  work_dir = slash;
  start_dir = in_a;
  clients = 0;
  sessions = λ _. none;
}

unfoldable later_server : Server × List (ℕ × List ℕ)
unfolding run
later_server = or_server (run world first_events new_server)

abbrev sockets : Listening
sockets = record { opened = true; option_set = true; bound = true }

starts : start_server sockets slash in_a ≡ some new_server
unfolding start_server osisp_labs.FileServer.Connection.set_connection
starts = refl

runs : run world first_events new_server ≡ some (later_server.0, later_server.1)
unfolding run later_server
runs = refl

started-AreAbsolute_example : AreAbsolute later_server.0
started-AreAbsolute_example =
    started-AreAbsolute world world-IsRooted sockets slash in_a first_events new_server
      later_server.0 later_server.1 refl starts runs
