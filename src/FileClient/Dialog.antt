-- ===== src/FileClient/Dialog.antt =====
-- Rounds of the client of Lab8 and its server: they stay in step, and end together.
use osisp_labs.Common.{
  defined_from, ℕ, ◌≡◌, refl, ap, subst, ◌∙◌, sym, Bool, true, false, Bool-cases, inl, inr, Option,
  ◌⊎◌, none, some, List, [], ◌∷◌,
}
use osisp_labs.FileServer.{Session, stamped, in_buffer, starts_with, serve, parse_command}
use osisp_labs.FileServer.Serving.{serve_as-Answer, in_buffer-fits}
use osisp_labs.FileClient.{
  one, classify, Client, Round, receive, exchange_as, send_from_file, main_round, dialog,
  send_command_to_server,
}
use osisp_labs.FileClient.Requests.{reading_of, classify-line, send_command_to_server-line}
use osisp_labs.FileClient.Answers.{InStep, IsRound, after}
use mathlib.Core.Option.{some-injective}

serve-InStep :
    (r : Round) (c c2 : Client) (s s2 : Session) (sent : List ℕ) (replies : List (List ℕ))
    (connected : Bool)
    → (h : IsRound r) → InStep c s
    → sent ≡ stamped r.sent_at h.text
    → serve r.input sent s ≡ some (replies, s2, connected)
    → receive ((classify r.line).0) replies c ≡ some c2
    → InStep c2 s2 × (connected ≡ (classify r.line).1)
unfolding serve
serve-InStep r c c2 s s2 sent replies connected h k e1 e2 e3 =
    let same : classify r.line ≡ reading_of (parse_command sent) =
      ap classify h.typed
      ∙ classify-line h.text r.sent_at
      ∙ ap (λ x. reading_of (parse_command x)) (sym e1) in
    let (kept, stays) =
      after (parse_command sent) r.input c c2 s s2 replies connected h.stamp h.listed k
        (serve_as-Answer (parse_command sent) r.input sent s (replies, s2, connected) e2)
        (subst (λ x. receive (x.0) replies c ≡ some c2) same e3) in
    (kept, stays ∙ ap (λ x. x.1) (sym same))

exchange_as-InStep :
    (r : Round) (c c2 : Client) (s s2 : Session) (connected : Bool)
    → IsRound r
    → InStep c s
    → exchange_as ((classify r.line).0) r (c, s) ≡ some (c2, s2, connected)
    → InStep c2 s2 × (connected ≡ (classify r.line).1)
unfolding exchange_as
exchange_as-InStep r c c2 s s2 connected h k e =
    let (sent, e1, rest) =
      defined_from (send_command_to_server r.sent_at r.line) _ (c2, s2, connected) e in
    let ((replies, s3, connected3), e2, rest2) =
      defined_from (serve r.input sent s) _ (c2, s2, connected) rest in
    let (c3, e3, last) =
      defined_from (receive ((classify r.line).0) replies c) _ (c2, s2, connected) rest2 in
    let line : send_command_to_server r.sent_at r.line ≡ in_buffer 100 (stamped r.sent_at h.text) =
      ap (send_command_to_server r.sent_at) h.typed
      ∙ send_command_to_server-line r.sent_at h.text in
    let text : sent ≡ stamped r.sent_at h.text = in_buffer-fits 100 _ _ (sym line ∙ e1) in
    subst (λ (c2, s2, connected). InStep c2 s2 × (connected ≡ (classify r.line).1))
      (some-injective _ _ last) (serve-InStep r c c3 s s3 sent replies connected3 h k text e2 e3)

-- A line of a file that is answered by one message, and is not the last one of the dialog.
abbrev pub IsPlain : Round → Type 0
IsPlain r = IsRound r × (classify r.line ≡ (one, true))

abbrev pub ArePlain : List Round → Type 0
ArePlain [] = Unit
ArePlain (r ∷ rest) = IsPlain r × ArePlain rest

connected_on {ℓ} :
    {A : Type ℓ} (connected : Bool) (o p : Option A) (a : A)
    → connected ≡ true
    → (elim connected [ true ↦ o | false ↦ p ]) ≡ some a
    → o ≡ some a
connected_on true o p a h e = e
connected_on false o p a h e = absurd (cc)

send_from_file-InStep :
    (rs : List Round) (c c2 : Client) (s s2 : Session) (connected : Bool)
    → ArePlain rs
    → InStep c s
    → send_from_file rs (c, s) ≡ some (c2, s2, connected)
    → InStep c2 s2 × (connected ≡ true)
unfolding send_from_file
send_from_file-InStep [] c c2 s s2 connected h k e =
    subst (λ (c2, s2, connected). InStep c2 s2 × (connected ≡ true)) (some-injective _ _ e)
      (k, refl)
send_from_file-InStep (r ∷ rest) c c2 s s2 connected (h, hs) k e =
    let ((c3, s3, connected3), e1, e2) =
      defined_from (exchange_as one r (c, s)) _ (c2, s2, connected) e in
    let (k3, goes_on) =
      exchange_as-InStep r c c3 s s3 connected3 (h.0) k
        (ap (λ x. exchange_as (x.0) r (c, s)) (h.1) ∙ e1) in
    let true3 : connected3 ≡ true = goes_on ∙ ap (λ x. x.1) (h.1) in
    send_from_file-InStep rest c3 c2 s3 s2 connected hs k3 (connected_on connected3 _ _ _ true3 e2)

-- When client and server are in step, which is that no message is unread, the prompt shows the
-- directory of the server and its buffer for echoes is clear, a round that does not end in
-- undefined behaviour leaves them in step, and the server goes on exactly if the client does; if
-- the line ends with its newline, the time that the server writes has 23 characters, no listed
-- line starts with "done", and each line of a file that '@' names is such a line and none of
-- them is a list, a cd or a quit.
pub main_round-InStep :
    (r : Round) (file : List Round) (c c2 : Client) (s s2 : Session) (work connected : Bool)
    → IsRound r
    → ArePlain file
    → InStep c s
    → main_round r file (c, s) ≡ some (c2, s2, work, connected)
    → InStep c2 s2 × (connected ≡ work)
unfolding main_round
main_round-InStep r file c c2 s s2 work connected h hs k e =
    elim (Bool-cases (starts_with r.line (b'@' ∷ []))) [
      | inl at ↦
          (let ((c3, s3, connected3), e1, e2) =
              defined_from (send_from_file file (c, s))
                (λ (c, s, connected). some (c, s, true, connected)) (c2, s2, work, connected)
                (rw at at e) in
            subst (λ (c2, s2, work, connected). InStep c2 s2 × (connected ≡ work))
              (some-injective _ _ e2) (send_from_file-InStep file c c3 s s3 connected3 hs k e1))
      | inr at ↦
          (let ((c3, s3, connected3), e1, e2) =
              defined_from (exchange_as ((classify r.line).0) r (c, s))
                (λ (c, s, connected). some (c, s, (classify r.line).1, connected))
                (c2, s2, work, connected) (rw at at e) in
            subst (λ (c2, s2, work, connected). InStep c2 s2 × (connected ≡ work))
              (some-injective _ _ e2) (exchange_as-InStep r c c3 s s3 connected3 h k e1))
    ]

-- The rounds of a dialog, all of them as above.
abbrev pub AreRounds : List (Round × List Round) → Type 0
AreRounds [] = Unit
AreRounds ((r, file) ∷ rounds) = (IsRound r × ArePlain file) × AreRounds rounds

goes_on :
    (work connected : Bool) (o : Option (Client × Session × Bool)) (a b : Client × Session × Bool)
    → connected ≡ work
    → (elim work [ true ↦ elim connected [ true ↦ o | false ↦ none ] | false ↦ some a ]) ≡ some b
    → (o ≡ some b) ⊎ (a ≡ b)
goes_on true true o a b h e = inl e
goes_on true false o a b h e = absurd (cc)
goes_on false connected o a b h e = inr (some-injective _ _ e)

pub dialog-InStep :
    (rounds : List (Round × List Round)) (c c2 : Client) (s s2 : Session) (work : Bool)
    → AreRounds rounds
    → InStep c s
    → dialog rounds (c, s) ≡ some (c2, s2, work)
    → InStep c2 s2
unfolding dialog
dialog-InStep [] c c2 s s2 work hs k e =
    subst (λ (c2, s2, work). InStep c2 s2) (some-injective _ _ e) k
dialog-InStep ((r, file) ∷ rounds) c c2 s s2 work (h, hs) k e =
    let ((c3, s3, work3, connected3), e1, e2) =
      defined_from (main_round r file (c, s)) _ (c2, s2, work) e in
    let (k3, same) = main_round-InStep r file c c3 s s3 work3 connected3 (h.0) (h.1) k e1 in
    elim (goes_on work3 connected3 (dialog rounds (c3, s3)) (c3, s3, false) (c2, s2, work) same
      e2) [
        | inl more ↦ dialog-InStep rounds c3 c2 s3 s2 work hs k3 more
        | inr end ↦ subst (λ (c2, s2, work). InStep c2 s2) end k3
      ]
