-- ===== src/FileServer/Clients/Replies.antt =====
-- What each client of Lab8/server.c sends and is sent.

use native.Mathlib.Decide.{ℕ_discrete}
use osisp_labs.Common.{
  ◌>>=◌, ℕ, ◌≡◌, refl, ap, ◌∙◌, arith, Bool, true, false, Option, none, some, List, [], ◌∷◌, ◌++◌,
  map, ◌==◌, if◌then◌else◌,
}
use osisp_labs.FileServer.{Session}
use osisp_labs.FileServer.Clients.{
  World, Server, moved, round, Event, receives, with_session, tagged, or_else, receive_for, act,
  step, run,
}
use osisp_labs.FileServer.Clients.Apart.{IsAbsolute}

-- A command that a client sends.
pub record Said : Type 0 where
  pub client : ℕ
  pub now : List ℕ
  pub command : List ℕ

abbrev pub says : Said → Event
says x = receives x.client x.now x.command

-- What one client says.
abbrev pub only : ℕ → List Said → List Said
only i [] = []
only i (x ∷ xs) = if x.client == i then x ∷ only i xs else only i xs

-- What is sent to one client.
abbrev pub replies_to : ℕ → List (ℕ × List ℕ) → List (List ℕ)
replies_to i [] = []
replies_to i ((j, r) ∷ sent) = if j == i then r ∷ replies_to i sent else replies_to i sent

-- The replies of a thread whose process stays in one directory.
unfoldable pub thread : World → List ℕ → Option Session → List Said → Option (List (List ℕ))
unfolding round
thread w dir o [] = some []
thread w dir none (x ∷ xs) = thread w dir none xs
thread w dir (some s) (x ∷ xs) = do
  (replies, s', connected) ← round w dir x.now x.command s
  later ← thread w dir (if connected then some s' else none) xs
  some (replies ++ later)

-- Every client that is connected has an absolute path.
abbrev pub AreAbsolute : Server → Type 0
AreAbsolute v = (i : ℕ) (s : Session) → v.sessions i ≡ some s → IsAbsolute s.dir_path

replies_to-tagged :
    (i : ℕ) (rs : List (List ℕ)) (sent : List (ℕ × List ℕ))
    → replies_to i (tagged i rs ++ sent) ≡ rs ++ replies_to i sent
replies_to-tagged i [] sent = refl
replies_to-tagged i (r ∷ rs) sent =
    let same : (i == i) ≡ true = ground arith in
    rw same (ap (λ l. r ∷ l) (replies_to-tagged i rs sent))

replies_to-other :
    (i j : ℕ) (rs : List (List ℕ)) (sent : List (ℕ × List ℕ))
    → (j == i) ≡ false
    → replies_to i (tagged j rs ++ sent) ≡ replies_to i sent
replies_to-other i j [] sent h = refl
replies_to-other i j (r ∷ rs) sent h = rw h (replies_to-other i j rs sent h)

pub replies_to-if :
    (i j : ℕ) (rs : List (List ℕ)) (sent : List (ℕ × List ℕ))
    → replies_to i (tagged j rs ++ sent)
      ≡ (if j == i then rs ++ replies_to i sent else replies_to i sent)
replies_to-if i j rs sent = elim (ℕ_discrete j i) [
  | yes same ↦
      let own : (j == i) ≡ true = ground (arith, same) in
      rw own (ap (λ k. replies_to i (tagged k rs ++ sent)) same ∙ replies_to-tagged i rs sent)
  | no ne ↦
      let off : (j == i) ≡ false = ground (arith, ne) in rw off (replies_to-other i j rs sent off)
]

-- Each client is served alone to its end.
abbrev pub ServedAlone : World → List ℕ → List Said → (ℕ → Option Session) → Type 0
ServedAlone w dir xs sessions =
    (i : ℕ) → (r : List (List ℕ)) × (thread w dir (sessions i) (only i xs) ≡ some r)

-- All are served together, and the replies are the given ones.
abbrev pub Together : World → List Said → Server → (ℕ → List (List ℕ)) → Type 0
Together w xs v replies =
    (v' : Server) × (sent : List (ℕ × List ℕ)) × (run w (map says xs) v ≡ some (v', sent))
    × ((i : ℕ) → replies_to i sent ≡ replies i)

-- A round of the thread of a client.
pub step_here :
    (w : World) (v : Server) (i : ℕ) (now command : List ℕ) (s s' : Session) (rs : List (List ℕ))
    (connected : Bool)
    → v.running ≡ true
    → v.sessions i ≡ some s
    → round w v.work_dir now command s ≡ some (rs, s', connected)
    → step w (receives i now command) v
      ≡ some (
        record v {
          work_dir = or_else (moved w v.work_dir command s) v.work_dir;
          sessions = with_session v.sessions i (if connected then some s' else none);
        },
        tagged i rs,
      )
unfolding step act receive_for
step_here w v i now command s s' rs connected up e here = rw (up, e, here) refl
