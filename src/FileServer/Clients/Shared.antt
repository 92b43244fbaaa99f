-- ===== src/FileServer/Clients/Shared.antt =====
-- What the clients of Lab8/server.c share: the process, and its directory.
use mathlib.Core.List.{append-nil, append_cancel_right}
use osisp_labs.Common.{
  equal_self, unequal, ◌>>=◌, ℕ, ◌≡◌, ◌≢◌, refl, ap, sym, ◌∙◌, Bool, true, false, Option, none,
  some, List, [], ◌∷◌, ◌++◌, ◌==◌, if◌then◌else◌,
}
use osisp_labs.FileServer.{
  zeros, replied, Session, Entry, cd, list, word_done, entry_lines, send_directory_listing,
  parse_command, serve_as, serve,
}
use osisp_labs.FileServer.Clients.{
  World, Server, tried_path, moved, input_at, round, Event, receives, stops, with_session, tagged,
  or_else, act, step, run,
}
use osisp_labs.FileServer.Clients.Replies.{replies_to, replies_to-if, step_here}

module _ (w : World) where
  run_down : (events : List Event) (v : Server) → v.running ≡ false → run w events v ≡ some (v, [])
  unfolding run step
  run_down [] v down = refl
  run_down (event ∷ events) v down =
      let same : step w event v ≡ some (v, []) = unfold step in rw (down) refl in
      rw (same, run_down events v down) refl

  -- One client that closes its connection, or loses it, ends the server for all: whatever the
  -- others send then, and whoever tries to connect, nothing is answered.
  client_ends_server :
      (v : Server) (i : ℕ) (s : Session) (events : List Event)
      → v.running ≡ true
      → v.sessions i ≡ some s
      → run w (stops i ∷ events) v ≡ some (record v { running = false }, [])
  unfolding run step act
  client_ends_server v i s events up e =
      rw (up, e, run_down events (record v { running = false }) refl) refl

  -- Where a command of one client has taken the process.
  moved_lem :
      (v : Server) (command p d : List ℕ) (s : Session)
      → parse_command command ≡ cd
      → tried_path command s ≡ some p
      → w.chdir v.work_dir p ≡ some d
      → moved w v.work_dir command s ≡ some d
  unfolding moved
  moved_lem v command p d s c tried went =
      ap
        (λ c. elim c as (λ _. Option (List ℕ)) [
          | cd ↦ tried_path command s >>= w.chdir v.work_dir
          | _ ↦ none
        ])
        c
      ∙ ap (λ o. o >>= w.chdir v.work_dir) tried
      ∙ went

  not_moved :
      (dir command : List ℕ) (t : Session)
      → parse_command command ≡ list
      → moved w dir command t ≡ none
  unfolding moved
  not_moved dir command t c =
      ap
        (λ k. elim k as (λ _. Option (List ℕ)) [
          | cd ↦ tried_path command t >>= w.chdir dir
          | _ ↦ none
        ])
        c

  list_round :
      (dir now command : List ℕ) (t : Session) (es : List Entry)
      → parse_command command ≡ list
      → w.opendir dir t.dir_path ≡ some es
      → (t' : Session) × (round w dir now command t
          ≡ some (entry_lines es ++ (word_done ∷ []), t', true))
  unfolding round serve serve_as send_directory_listing
  list_round dir now command t es c found = (
    record t { echo_buf = zeros },
    ap (λ k. serve_as k (input_at w dir now command t) command t) c
        ∙ ap (λ o. send_directory_listing o >>= λ replies. some (replied t replies true)) found,
  )

  -- The list of one client behind the cd of another: what its own path means where that has taken
  -- the process.
  cd_then_list :
      (v : Server) (i j : ℕ) (now command now' command' p d : List ℕ) (s t : Session)
      (rs : List (List ℕ)) (s' : Session) (connected : Bool) (es : List Entry)
      → v.running ≡ true
      → i ≢ j
      → v.sessions i ≡ some s
      → v.sessions j ≡ some t
      → parse_command command ≡ cd
      → tried_path command s ≡ some p
      → w.chdir v.work_dir p ≡ some d
      → round w v.work_dir now command s ≡ some (rs, s', connected)
      → parse_command command' ≡ list
      → w.opendir d t.dir_path ≡ some es
      → (v' : Server) × (sent : List (ℕ × List ℕ)) × (run w
            (receives i now command ∷ receives j now' command' ∷ [])
            v
          ≡ some (v', sent))
        × (v'.work_dir ≡ d)
        × (replies_to j sent ≡ entry_lines es ++ (word_done ∷ []))
  unfolding run
  cd_then_list v i j now command now' command' p d s t rs s' connected es up ne ei ej c tried went
        answered c' found =
      let off : (i == j) ≡ false = unequal i j ne in
      let v1 : Server = record v {
        work_dir = or_else (moved w v.work_dir command s) v.work_dir;
        sessions = with_session v.sessions i (if connected then some s' else none);
      } in
      let there : v1.work_dir ≡ d =
        ap (λ o. or_else o v.work_dir) (moved_lem v command p d s c tried went) in
      let kept : v1.sessions j ≡ some t =
        ap (λ k. if k then (if connected then some s' else none) else v.sessions j) off ∙ ej in
      let (t', listed) = list_round d now' command' t es c' found in
      let second =
        step_here w v1 j now' command' t t' (entry_lines es ++ (word_done ∷ [])) true up kept
          (ap (λ k. round w k now' command' t) there ∙ listed) in
      let lines = entry_lines es ++ (word_done ∷ []) in
      let own : (j == j) ≡ true = equal_self j in
      let stays = not_moved v1.work_dir command' t c' in
      (
        record v1 {
          work_dir = or_else (moved w v1.work_dir command' t) v1.work_dir;
          sessions = with_session v1.sessions j (some t');
        },
        tagged i rs ++ (tagged j lines ++ []),
        rw (run, step_here w v i now command s s' rs connected up ei answered, second) refl,
        ap (λ o. or_else o v1.work_dir) stays ∙ there,
        replies_to-if j i rs (tagged j lines ++ [])
            ∙ ap
                (λ k.
                  if k
                  then rs ++ replies_to j (tagged j lines ++ [])
                  else replies_to j (tagged j lines ++ []))
                off
            ∙ replies_to-if j j lines []
            ∙ ap (λ k. if k then lines ++ [] else []) own
            ∙ append-nil lines,
      )

  -- The list of one client alone.
  list_alone :
      (v : Server) (j : ℕ) (now command : List ℕ) (t : Session) (old : List Entry)
      → v.running ≡ true
      → v.sessions j ≡ some t
      → parse_command command ≡ list
      → w.opendir v.work_dir t.dir_path ≡ some old
      → (v' : Server) × (sent : List (ℕ × List ℕ)) × (run w (receives j now command ∷ []) v
          ≡ some (v', sent))
        × (replies_to j sent ≡ entry_lines old ++ (word_done ∷ []))
  unfolding run
  list_alone v j now command t old up ej c found =
      let lines = entry_lines old ++ (word_done ∷ []) in
      let (t', listed) = list_round v.work_dir now command t old c found in
      (
        record v {
          work_dir = or_else (moved w v.work_dir command t) v.work_dir;
          sessions = with_session v.sessions j (some t');
        },
        tagged j lines ++ [],
        rw (run, step_here w v j now command t t' lines true up ej listed) refl,
        replies_to-if j j lines []
            ∙ ap (λ k. if k then lines ++ [] else []) (equal_self j)
            ∙ append-nil lines,
      )

  -- If the path of a client means one directory where the process stands, and another, with other
  -- lines, where the cd of another client takes the process, then its list is answered otherwise
  -- behind that cd than without it.
  pub cd_moves_others :
      (v : Server) (i j : ℕ) (now command now' command' p d : List ℕ) (s t : Session)
      (rs : List (List ℕ)) (s' : Session) (connected : Bool) (old es : List Entry)
      → v.running ≡ true
      → i ≢ j
      → v.sessions i ≡ some s
      → v.sessions j ≡ some t
      → parse_command command ≡ cd
      → tried_path command s ≡ some p
      → w.chdir v.work_dir p ≡ some d
      → round w v.work_dir now command s ≡ some (rs, s', connected)
      → parse_command command' ≡ list
      → w.opendir v.work_dir t.dir_path ≡ some old
      → w.opendir d t.dir_path ≡ some es
      → entry_lines es ≢ entry_lines old
      → (v1 v2 : Server) × (before behind : List (ℕ × List ℕ)) × (run w
            (receives j now' command' ∷ [])
            v
          ≡ some (v1, before))
        × (run w (receives i now command ∷ receives j now' command' ∷ []) v ≡ some (v2, behind))
        × (replies_to j before ≡ entry_lines old ++ (word_done ∷ []))
        × (replies_to j behind ≡ entry_lines es ++ (word_done ∷ []))
        × (replies_to j behind ≢ replies_to j before)
  cd_moves_others v i j now command now' command' p d s t rs s' connected old es up ne ei ej c tried
        went answered c' found found' other =
      let (v1, before, ran1, shown1) = list_alone v j now' command' t old up ej c' found in
      let (v2, behind, ran2, _, shown2) =
        cd_then_list v i j now command now' command' p d s t rs s' connected es up ne ei ej c tried
          went answered c' found' in
      (
        v1,
        v2,
        before,
        behind,
        ran1,
        ran2,
        shown1,
        shown2,
        λ same. other (
            append_cancel_right (entry_lines es) (entry_lines old) (word_done ∷ [])
              (sym shown2 ∙ same ∙ shown1)),
      )
