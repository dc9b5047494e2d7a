-- ===== src/Chord/Query.antt =====
-- The client `DHT_Chord/query/query.c`: the keys that are typed in, the messages sent for them and
-- what is printed of the replies.
use tiny_projects_and_tools.Base.{
  ℕ, Bool, ◌&&◌, List, [], ◌∷◌, ◌++◌, Option, none, some, ascii, if◌then◌else◌, str_eq, ◌>>=◌,
}
use tiny_projects_and_tools.Chord.Hash.{Digest, fold_digest}
use tiny_projects_and_tools.Chord.Stabilize.{read_int}
use tiny_projects_and_tools.Chord.Handler.{strtok}

-- How the client ends: with 0, with 1, on a null pointer, or where its input ends.
pub data Exit : Type 0 where
  success : Exit
  failure : Exit
  null_pointer : Exit
  no_input : Exit

-- What the peer does with one message: `send` fails, `recv` fails, or a reply comes.
pub data Exchange : Type 0 where
  unsent : Exchange
  unanswered : Exchange
  replied : List ℕ → Exchange

-- The lines before the first whose first word is `query`, then that line's third word, the port.
unfoldable pub third_word : List ℕ → Option (List ℕ)
unfolding strtok
third_word rest = do w ← strtok rest; v ← strtok (w.1); some (v.0)

-- A line that names no port, or one with no word at all, is a null pointer. The lines that are left
-- come with the port.
unfoldable pub read_command : List (List ℕ) → Option (Option ℕ × List (List ℕ))
unfolding strtok third_word read_int
read_command [] = none
read_command (line ∷ later) =
    let again = read_command later in
    elim (strtok line) [
      | none ↦ some (none, later)
      | some (word, rest) ↦
          if str_eq word (ascii "query")
          then some (third_word rest >>= λ w. some (read_int w), later)
          else again
    ]

-- A line that the loop prints for a reply: the port and the position.
pub record Response : Type 0 where
  pub port : ℕ
  pub position : ℕ

module _ (sha1 : List ℕ → Option Digest) where
  unfoldable pub hash : List ℕ → ℕ
  unfolding fold_digest
  hash key = fold_digest (sha1 key)

  -- The position printed for a reply is that of the address and the reply with a blank between them.
  unfoldable pub response_of : List ℕ → Response
  unfolding read_int hash
  response_of reply = record {
    port = read_int reply;
    position = hash (ascii "127.0.0.1" ++ ascii " " ++ reply);
  }

  -- The loop over the keys: the messages sent, the responses printed and the exit.
  unfoldable pub ask_keys : List (List ℕ) → List Exchange → List (List ℕ) × List Response × Exit
  unfolding str_eq response_of
  ask_keys [] exchanges = ([], [], no_input)
  ask_keys (key ∷ later) [] =
      if str_eq key (ascii "quit\n") then ([], [], success) else ([], [], failure)
  ask_keys (key ∷ later) (exchange ∷ exchanges) =
      let rest = ask_keys later exchanges in
      if str_eq key (ascii "quit\n") then ([], [], success) else elim exchange [
        | unsent ↦ ([], [], failure)
        | unanswered ↦ (key ∷ [], [], failure)
        | replied reply ↦ (key ∷ rest.0, response_of reply ∷ rest.1, rest.2)
      ]

  -- `main`: the port that it connects to, what it sends there, what it prints and how it ends.
  -- `connected` says whether there is a socket that connects, `greeted` whether the first `send` works.
  unfoldable pub main :
      List (List ℕ) → Bool → Bool → List Exchange → Option ℕ × List (List ℕ) × List Response × Exit
  unfolding read_command ask_keys
  main lines connected greeted exchanges = elim (read_command lines) [
    | none ↦ (none, [], [], no_input)
    | some (none, later) ↦ (none, [], [], null_pointer)
    | some (some port, later) ↦
        if connected && greeted
        then (let (sends, responses, exit) = ask_keys later exchanges in
            (some port, ascii "query" ∷ sends, responses, exit))
        else (some port, [], [], failure)
  ]
