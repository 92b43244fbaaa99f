-- ===== src/FileServer.antt =====
-- Lab8/server.c: the server of a dialog about directories. A string is the list of its characters,
-- without the end; a buffer whose old contents are seen is the list of its bytes. `none` is
-- undefined behaviour of the program: a write behind a buffer or into a string literal, or a
-- length below zero that wraps around. What the system gives to a request is its `Input`.
pub mod Strings
pub mod Serving
pub mod Directory
pub mod Connection
pub mod Clients
use osisp_labs.Common.{
  ◌>>=◌, ℕ, zero, suc, ◌+◌, ◌-◌, Bool, true, false, ◌&&◌, Option, none, some, List, [], ◌∷◌, ◌++◌,
  ltb, leb, ◌==◌, if◌then◌else◌, length, take, drop, get_or, replicate,
}

-- `strncmp(s, word, strlen(word)) == 0`
unfoldable pub starts_with : List ℕ → List ℕ → Bool
starts_with s [] = true
starts_with [] (w ∷ word) = false
starts_with (c ∷ s) (w ∷ word) = c == w && starts_with s word

-- The string at the start of a buffer.
unfoldable pub c_string : List ℕ → List ℕ
c_string [] = []
c_string (c ∷ buffer) = let rest = c_string buffer in if c == 0 then [] else c ∷ rest

-- `strncpy(buffer, s, n)` for no more characters than `s` has: it writes no end.
abbrev pub copy_to : List ℕ → List ℕ → List ℕ
copy_to s buffer = s ++ drop (length s) buffer

-- A string with its end in a buffer of that many bytes.
abbrev pub in_buffer : ℕ → List ℕ → Option (List ℕ)
in_buffer size s = if ltb (length s) size then some s else none

-- `strcat(command, " - "); strcat(command, timestamp);`
abbrev pub stamped : List ℕ → List ℕ → List ℕ
stamped now s = s ++ (b' ' ∷ b'-' ∷ b' ' ∷ now)

-- `sendMessage` of a string in a buffer of 100 bytes
unfoldable pub send_message : List ℕ → List ℕ → Option (List ℕ)
send_message now s = in_buffer 100 (stamped now s)

-- What `strlen(command) - skipped - 26` leaves of a command behind `command + skipped`.
unfoldable pub argument : ℕ → List ℕ → Option (List ℕ)
argument skipped command =
    if ltb (length command) (skipped + 26)
    then none
    else some (take (length command - skipped - 26) (drop skipped command))

-- `enum Command`, and -1.
pub data Command : Type 0 where
  quit info echo cd list unknown : Command

abbrev pub word_quit : List ℕ
word_quit = b'q' ∷ b'u' ∷ b'i' ∷ b't' ∷ []

abbrev pub word_info : List ℕ
word_info = b'i' ∷ b'n' ∷ b'f' ∷ b'o' ∷ []

abbrev pub word_echo : List ℕ
word_echo = b'e' ∷ b'c' ∷ b'h' ∷ b'o' ∷ []

abbrev pub word_cd : List ℕ
word_cd = b'c' ∷ b'd' ∷ []

abbrev pub word_list : List ℕ
word_list = b'l' ∷ b'i' ∷ b's' ∷ b't' ∷ []

unfoldable pub parse_command : List ℕ → Command
unfolding starts_with
parse_command s =
    if starts_with s word_quit
    then quit
    else if starts_with s word_info
    then info
    else if starts_with s word_echo
    then echo
    else if starts_with s word_cd
    then cd
    else if starts_with s word_list
    then list
    else unknown

-- An entry of a directory as `lstat` and `readlink` show it.
pub data Kind : Type 0 where
  failed : Kind
  directory : Kind
  link : Option (List ℕ) → Kind
  other : Kind

pub record Entry : Type 0 where
  pub name : List ℕ
  pub kind : Kind

-- What the loop of `sendDirectoryListing` sends for an entry. `snprintf` cuts at 1023 characters,
-- and `readlink` gives at most as many.
unfoldable pub entry_line : List ℕ → Kind → List (List ℕ)
entry_line name failed = []
entry_line name directory = take 1023 (b'/' ∷ (name ++ (b'/' ∷ []))) ∷ []
entry_line name (link none) = []
entry_line name (link (some target)) =
    take 1023 (name ++ (b' ' ∷ b'-' ∷ b'-' ∷ b'>' ∷ b' ' ∷ take 1023 target)) ∷ []
entry_line name other = take 1023 name ∷ []

abbrev pub word_done : List ℕ
word_done = b'd' ∷ b'o' ∷ b'n' ∷ b'e' ∷ []

unfoldable pub entry_lines : List Entry → List (List ℕ)
unfolding entry_line
entry_lines [] = []
entry_lines (e ∷ entries) = entry_line e.name e.kind ++ entry_lines entries

-- `sendDirectoryListing`. Without a directory it hands a literal to `sendMessage`.
unfoldable pub send_directory_listing : Option (List Entry) → Option (List (List ℕ))
unfolding entry_lines
send_directory_listing none = none
send_directory_listing (some entries) = some (entry_lines entries ++ (word_done ∷ []))

-- The `for` of `changeDirectory` from `i - 1` down: the path is cut at its last '/', if it has one.
unfoldable pub cut_last : ℕ → List ℕ → List ℕ
cut_last zero path = path
cut_last (suc i) path =
    let rest = cut_last i path in if get_or path i 0 == b'/' then take i path else rest

-- `tempPath` of `changeDirectory`. `none`: a literal is handed to `sendMessage`.
unfoldable pub target_path : List ℕ → List ℕ → Option (List ℕ)
unfolding cut_last starts_with
target_path dir_path new_dir =
    if starts_with new_dir (b'/' ∷ [])
    then none
    else if starts_with new_dir (b'.' ∷ b'.' ∷ [])
    then some (cut_last (length dir_path) dir_path)
    else if starts_with new_dir (b'.' ∷ [])
    then some dir_path
    else some (dir_path ++ (b'/' ∷ new_dir))

-- "Current directory: "
abbrev pub current_directory : List ℕ
current_directory =
    b'C' ∷ b'u' ∷ b'r' ∷ b'r' ∷ b'e' ∷ b'n' ∷ b't' ∷ b' ' ∷ b'd' ∷ b'i' ∷ b'r' ∷ b'e' ∷ b'c' ∷ b't'
    ∷ b'o' ∷ b'r' ∷ b'y' ∷ b':' ∷ b' ' ∷ []

pub record Input : Type 0 where
  pub now : List ℕ  -- what `get_timestamp` writes
  pub info : Option (List ℕ)  -- the info file, if it is opened
  pub entered : Bool  -- `chdir` took the path
  pub entries : Option (List Entry)  -- the directory, if it is opened

-- The variables of `waitConnection`, and `dirPath` of the thread.
pub record Session : Type 0 where
  pub dir_path : List ℕ
  pub echo_buf : List ℕ

abbrev pub zeros : List ℕ
zeros = replicate 100 0

-- `sendInfoAboutServer`: 99 bytes of the file at most. Without the file it hands a literal to
-- `sendMessage`.
unfoldable pub send_info_about_server : Input → Option (List ℕ)
unfolding send_message
send_info_about_server i = do text ← i.info; send_message i.now (take 99 text)

-- The end of `changeDirectory`: the new `dirPath`, and the reply.
unfoldable pub enter : Input → List ℕ → List ℕ → Option (List ℕ × List ℕ)
unfolding send_message
enter i dir_path temp_path = do
  dir ← in_buffer 100 (if i.entered then temp_path else dir_path)
  reply ← send_message i.now (current_directory ++ dir)
  some (dir, reply)

unfoldable pub change_directory : Input → List ℕ → List ℕ → Option (List ℕ × List ℕ)
unfolding argument target_path enter
change_directory i command dir_path = do
  new_dir ← argument 3 command
  temp_path ← target_path dir_path new_dir
  enter i dir_path temp_path

-- A round of `waitConnection`: what is sent, the session behind `bzero(echoBuf, 100)`, and whether
-- the client stays connected.
abbrev pub replied : Session → List (List ℕ) → Bool → List (List ℕ) × Session × Bool
replied s replies connected = (replies, record s { echo_buf = zeros }, connected)

unfoldable pub serve_as :
    Command → Input → List ℕ → Session → Option (List (List ℕ) × Session × Bool)
unfolding send_info_about_server change_directory send_directory_listing argument send_message
    c_string
serve_as info i command s = do reply ← send_info_about_server i; some (replied s (reply ∷ []) true)
serve_as quit i command s = do
  reply ← send_message i.now (b'B' ∷ b'Y' ∷ b'E' ∷ [])
  some (replied s (reply ∷ []) false)
serve_as echo i command s = do
  text ← argument 5 command
  reply ← send_message i.now (c_string (copy_to text s.echo_buf))
  some (replied s (reply ∷ []) true)
serve_as cd i command s = do
  (dir, reply) ← change_directory i command s.dir_path
  some (replied (record s { dir_path = dir }) (reply ∷ []) true)
serve_as list i command s = do
  replies ← send_directory_listing i.entries
  some (replied s replies true)
serve_as unknown i command s = do
  reply ← send_message i.now (
      b'U' ∷ b'n' ∷ b'k' ∷ b'n' ∷ b'o' ∷ b'w' ∷ b'n' ∷ b' ' ∷ b'c' ∷ b'o' ∷ b'm' ∷ b'm' ∷ b'a'
      ∷ b'n' ∷ b'd' ∷ [])
  some (replied s (reply ∷ []) true)

unfoldable pub serve : Input → List ℕ → Session → Option (List (List ℕ) × Session × Bool)
unfolding serve_as parse_command
serve i command s = serve_as (parse_command command) i command s
