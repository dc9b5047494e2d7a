-- ===== src/Chord/Protocol.antt =====
-- The messages of `DHT_Chord/chord/chord.c` as `chordNode` reads them.
use tiny_projects_and_tools.Base.{
  ℕ, ◌^◌, ◌<◌, ◌≡◌, ◌≢◌, refl, sym, ap, ap₂, ◌∙◌, List, [], ◌∷◌, ◌++◌, Option, some, ascii, arith,
  All,
}
use tiny_projects_and_tools.Base.Decimal.{print_int}
use tiny_projects_and_tools.Base.CString.{until, from}
use tiny_projects_and_tools.Base.RoundTrip.{to_unsigned-print_int, print_int-All}
use tiny_projects_and_tools.Chord.Hash.{Digest}
use tiny_projects_and_tools.Chord.State.{State}
use tiny_projects_and_tools.Chord.Stabilize.{read_int}
use tiny_projects_and_tools.Chord.Handler.{
  Request, Step, Served, done, is_blank, skip_blanks, behind, token_of, strtok, quiet, adopt_pre,
  keep_alive, reset_pre, with_argument, serve_join, serve_stable, serve_command, serve_message,
}

pub read_int-print_int : (port : ℕ) → port < 2 ^ 32 → read_int (print_int port) ≡ port
unfolding read_int
read_int-print_int port h = to_unsigned-print_int port h

abbrev pub NoBlank : ℕ → Type 0
NoBlank c = c ≢ 32

until-word : (s : List ℕ) → All NoBlank s → until is_blank s ≡ s
unfolding until
until-word [] h = refl
until-word (c ∷ s) h = ground (arith, h.0, until-word s h.1)

from-word : (s : List ℕ) → All NoBlank s → from is_blank s ≡ []
unfolding from
from-word [] h = refl
from-word (c ∷ s) h = ground (arith, h.0, from-word s h.1)

skip_blanks-word : (c : ℕ) (s : List ℕ) → c ≢ 32 → skip_blanks (c ∷ s) ≡ c ∷ s
unfolding skip_blanks
skip_blanks-word c s h = ground arith

strtok-word : (c : ℕ) (s : List ℕ) → All NoBlank (c ∷ s) → strtok (c ∷ s) ≡ some (c ∷ s, [])
unfolding strtok
strtok-word c s h =
    ap token_of (skip_blanks-word c s h.0)
    ∙ ap some (ap₂ (λ a b. (a, b)) (until-word (c ∷ s) h) (ap behind (from-word (c ∷ s) h)))

with_argument-word :
    (c : ℕ) (s : List ℕ) (serve : ℕ → Served Step)
    → All NoBlank (c ∷ s)
    → with_argument (c ∷ s) serve ≡ serve (read_int (c ∷ s))
unfolding with_argument
with_argument-word c s serve h = ground (arith, strtok-word c s h)

with_argument-port :
    (port : ℕ) (serve : ℕ → Served Step)
    → port < 2 ^ 32
    → with_argument (print_int port) serve ≡ serve port
with_argument-port port serve h =
    let (c, s, e, word) = print_int-All NoBlank port h (λ c low high. omega arith) (omega arith) in
    ap (λ t. with_argument t serve) e
    ∙ with_argument-word c s serve word
    ∙ ap (λ t. serve (read_int t)) (sym e)
    ∙ ap serve (read_int-print_int port h)

module _ (sha1 : List ℕ → Option Digest) (r : Request) (s : State) where
  serve_message-word :
      (cmd rest : List ℕ)
      → strtok r.text ≡ some (cmd, rest)
      → serve_message sha1 r s ≡ serve_command sha1 r s cmd rest
  unfolding serve_message
  serve_message-word cmd rest h = ground (arith, h)

  -- What a node does on each message that another node prints.
  pub serve_message-stable :
      (port : ℕ)
      → r.text ≡ ascii "stable " ++ print_int port
      → serve_message sha1 r s ≡ done (serve_stable r s)
  unfolding serve_message
  serve_message-stable port text =
      serve_message-word (ascii "stable") (print_int port) (ap strtok text)

  pub serve_message-reset :
      r.text ≡ ascii "reset-pre" → serve_message sha1 r s ≡ done (quiet (reset_pre s))
  unfolding serve_message
  serve_message-reset text = serve_message-word (ascii "reset-pre") [] (ap strtok text)

  pub serve_message-notify :
      (port : ℕ)
      → port < 2 ^ 32
      → r.text ≡ ascii "notify " ++ print_int port
      → serve_message sha1 r s ≡ done (quiet (adopt_pre sha1 s port))
  unfolding serve_message
  serve_message-notify port fits text =
      serve_message-word (ascii "notify") (print_int port) (ap strtok text)
      ∙ with_argument-port port (λ p. done (quiet (adopt_pre sha1 s p))) fits

  pub serve_message-keep :
      (port : ℕ)
      → port < 2 ^ 32
      → r.text ≡ ascii "keep-alive " ++ print_int port
      → serve_message sha1 r s ≡ done (quiet (keep_alive sha1 s port))
  unfolding serve_message
  serve_message-keep port fits text =
      serve_message-word (ascii "keep-alive") (print_int port) (ap strtok text)
      ∙ with_argument-port port (λ p. done (quiet (keep_alive sha1 s p))) fits

  pub serve_message-join :
      (port : ℕ)
      → port < 2 ^ 32
      → r.text ≡ ascii "join " ++ print_int port
      → serve_message sha1 r s ≡ serve_join sha1 r s port
  unfolding serve_message
  serve_message-join port fits text =
      serve_message-word (ascii "join") (print_int port) (ap strtok text)
      ∙ with_argument-port port (serve_join sha1 r s) fits
