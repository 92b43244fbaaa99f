-- ===== src/FileServer/Connection.antt =====
-- How the two programs of Lab8 start, and their clock: `setConnection` and `get_timestamp` of
-- Lab8/server.c, `setConnction` of Lab8/client.c.
use osisp_labs.Common.{
  ℕ, ◌+◌, ◌/◌, ◌%◌, ◌≡◌, Bool, true, false, List, [], ◌∷◌, ◌++◌, arith, if◌then◌else◌, length,
  length-append,
}

-- What `perror` says.
pub data Notice : Type 0 where
  no_socket no_option not_bound no_address not_connected : Notice

-- Which calls of the server succeed: `socket`, `setsockopt`, `bind`. The result of `listen` is not
-- looked at.
pub record Listening : Type 0 where
  pub opened : Bool
  pub option_set : Bool
  pub bound : Bool

-- What is said, and whether the program goes on.
unfoldable pub set_connection : Listening → List Notice × Bool
set_connection k =
    let warned = if k.option_set then [] else no_option ∷ [] in
    if k.opened
    then (if k.bound then (warned, true) else (warned ++ (not_bound ∷ []), false))
    else (no_socket ∷ [], false)

-- Which calls of the client succeed: `socket`, `inet_pton`, `connect`.
pub record Dialing : Type 0 where
  pub opened : Bool
  pub address : Bool
  pub connected : Bool

unfoldable pub set_connction : Dialing → List Notice × Bool
set_connction k =
    if k.opened
    then (if k.address
        then (if k.connected then ([], true) else (not_connected ∷ [], false))
        else (no_address ∷ [], false))
    else (no_socket ∷ [], false)

-- `%03ld` of a number below 1000
unfoldable pub three_digits : ℕ → List ℕ
three_digits n = (b'0' + n / 100) ∷ (b'0' + n / 10 % 10) ∷ (b'0' + n % 10) ∷ []

-- `get_timestamp`: `date` is what `strftime` writes. `sprintf` prints the buffer into itself, which
-- is taken to leave it as it is.
unfoldable pub get_timestamp : List ℕ → ℕ → List ℕ
unfolding three_digits
get_timestamp date nanoseconds = date ++ (b'.' ∷ three_digits (nanoseconds / 1000000))

-- The year of four digits, and so on: with a date of 19 characters a time has 23.
length-get_timestamp :
    (date : List ℕ) (nanoseconds : ℕ)
    → length date ≡ 19
    → length (get_timestamp date nanoseconds) ≡ 23
unfolding get_timestamp three_digits
length-get_timestamp date nanoseconds h =
    omega (arith, h, length-append date (b'.' ∷ three_digits (nanoseconds / 1000000)))
