-- ===== src/FileClient/Requests.antt =====
-- The client reads as many messages as the server sends for the same line.
use osisp_labs.Common.{
  has, ℕ, ◌≡◌, refl, sym, ◌≢◌, ◌∙◌, ap, Bool, true, false, Bool-cases, inl, inr, List, [], ◌∷◌,
  ◌++◌, arith, length, ◌-◌, ◌+◌, ◌==◌, length-append, take-append,
}
use osisp_labs.FileServer.{
  Command, quit, info, echo, cd, list, unknown, parse_command, starts_with, word_quit, word_info,
  word_echo, word_cd, word_list, stamped, in_buffer,
}
use osisp_labs.FileServer.Strings.{starts_with-append, starts_with-apart}
use osisp_labs.FileClient.{Reading, one, listing, directory, classify, send_command_to_server}

-- How a command is read, and whether the client goes on after it.
abbrev pub reading_of : Command → Reading × Bool
reading_of quit = (one, false)
reading_of info = (one, true)
reading_of echo = (one, true)
reading_of cd = (directory, true)
reading_of list = (listing, true)
reading_of unknown = (one, true)

parse_command-append : (s r : List ℕ) → parse_command (s ++ (b' ' ∷ r)) ≡ parse_command s
unfolding parse_command has
parse_command-append s r =
    let same : (w : List ℕ)
        → has b' ' w ≡ false
        → starts_with (s ++ (b' ' ∷ r)) w ≡ starts_with s w =
      λ w. starts_with-append s r w b' ' in
    rw
      (
        same word_quit refl,
        same word_info refl,
        same word_echo refl,
        same word_cd refl,
        same word_list refl,
      )
      refl

classify-append : (s r : List ℕ) → classify (s ++ (b'\n' ∷ r)) ≡ classify s
unfolding classify has
classify-append s r =
    let same : (w : List ℕ)
        → has b'\n' w ≡ false
        → starts_with (s ++ (b'\n' ∷ r)) w ≡ starts_with s w =
      λ w. starts_with-append s r w b'\n' in
    rw (same word_quit refl, same word_cd refl, same word_list refl) refl

-- Two words with different first characters are not both the start.
others :
    (s word : List ℕ) (a : ℕ)
    → a ≢ b'l'
    → a ≢ b'c'
    → starts_with s (a ∷ word) ≡ true
    → (starts_with s word_list ≡ false) × (starts_with s word_cd ≡ false)
others s word a l c h = (
  starts_with-apart s word (b'i' ∷ b's' ∷ b't' ∷ []) a b'l' l h,
  starts_with-apart s word (b'd' ∷ []) a b'c' c h,
)

classify-reading_of : (s : List ℕ) → classify s ≡ reading_of (parse_command s)
unfolding classify parse_command
classify-reading_of s = elim (Bool-cases (starts_with s word_quit)) [
  | inl q ↦
      (let (l, c) = others s (b'u' ∷ b'i' ∷ b't' ∷ []) b'q' (omega arith) (omega arith) q in
        rw (q, l, c) refl)
  | inr q ↦ elim (Bool-cases (starts_with s word_info)) [
    | inl i ↦
        (let (l, c) = others s (b'n' ∷ b'f' ∷ b'o' ∷ []) b'i' (omega arith) (omega arith) i in
          rw (q, i, l, c) refl)
    | inr i ↦ elim (Bool-cases (starts_with s word_echo)) [
      | inl e ↦
          (let (l, c) = others s (b'c' ∷ b'h' ∷ b'o' ∷ []) b'e' (omega arith) (omega arith) e in
            rw (q, i, e, l, c) refl)
      | inr e ↦ elim (Bool-cases (starts_with s word_cd)) [
        | inl c ↦
            (let l =
                starts_with-apart s (b'd' ∷ []) (b'i' ∷ b's' ∷ b't' ∷ []) b'c' b'l' (omega arith)
                  c in
              rw (q, i, e, c, l) refl)
        | inr c ↦ elim (Bool-cases (starts_with s word_list)) [
          | inl l ↦ rw (q, i, e, c, l) refl
          | inr l ↦ rw (q, i, e, c, l) refl
        ]
      ]
    ]
  ]
]

-- The line that the client reads is for it what the request is for the server.
pub classify-line :
    (text now : List ℕ)
    → classify (text ++ (b'\n' ∷ [])) ≡ reading_of (parse_command (stamped now text))
classify-line text now =
    classify-append text []
    ∙ classify-reading_of text
    ∙ ap reading_of (sym (parse_command-append text (b'-' ∷ b' ' ∷ now)))

-- What is sent of a line with its end is the line without it.
pub send_command_to_server-line :
    (now text : List ℕ)
    → send_command_to_server now (text ++ (b'\n' ∷ [])) ≡ in_buffer 100 (stamped now text)
unfolding send_command_to_server
send_command_to_server-line now text =
    let size : length (text ++ (b'\n' ∷ [])) ≡ length text + 1 = length-append text (b'\n' ∷ []) in
    let some_line : (length text + 1 == 0) ≡ false = ground arith in
    let cut : length text + 1 - 1 ≡ length text = omega arith in
    rw (size, some_line, cut, take-append text (b'\n' ∷ []) (length text) refl) refl
