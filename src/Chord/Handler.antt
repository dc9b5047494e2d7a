-- ===== src/Chord/Handler.antt =====
-- `chordNode` of `DHT_Chord/chord/chord.c`: the thread that serves one connection. A connection is the
-- list of the messages that `recv` brings; behind the last one `recv` fails or the peer has closed.
use tiny_projects_and_tools.Base.{
  ℕ, Bool, ◌&&◌, ◌||◌, List, [], ◌∷◌, ◌++◌, Option, none, some, ltb, ◌==◌, ascii, if◌then◌else◌,
  str_eq,
}
use tiny_projects_and_tools.Base.Decimal.{print_int}
use tiny_projects_and_tools.Base.CString.{until, from}
use tiny_projects_and_tools.Chord.Hash.{Digest, translate, hash_function}
use tiny_projects_and_tools.Chord.State.{Node, State, node_of}
use tiny_projects_and_tools.Chord.Lookup.{retry_find}
use tiny_projects_and_tools.Chord.Stabilize.{read_int}

-- A message, what the network answers while it is served, and whether the reply can be sent.
pub record Request : Type 0 where
  pub text : List ℕ
  pub answers : List (ℕ → ℕ → Option ℕ)
  pub sendable : Bool

-- How serving ends: with a value; on a null pointer; or still asking for an answer that is not 0.
pub data Served {ℓ} (A : Type ℓ) : Type ℓ where
  done : A → Served A
  null_pointer : Served A
  asking : Served A

-- What the thread does next.
pub data Next : Type 0 where
  receive : Next
  receive_keys : Next
  finish : Next

pub record Step : Type 0 where
  pub state : State
  pub reply : Option (List ℕ)
  pub next : Next

-- `strtok` with a blank: the token, and the text behind the blank that ends it.
abbrev pub is_blank : ℕ → Bool
is_blank c = c == 32

unfoldable pub skip_blanks : List ℕ → List ℕ
skip_blanks [] = []
skip_blanks (c ∷ s) = if is_blank c then skip_blanks s else c ∷ s

unfoldable pub behind : List ℕ → List ℕ
behind [] = []
behind (c ∷ s) = s

unfoldable pub token_of : List ℕ → Option (List ℕ × List ℕ)
unfolding until from behind
token_of [] = none
token_of (c ∷ s) = some (until is_blank (c ∷ s), behind (from is_blank (c ∷ s)))

unfoldable pub strtok : List ℕ → Option (List ℕ × List ℕ)
unfolding skip_blanks token_of
strtok s = token_of (skip_blanks s)

-- A reply of a port: where `send` fails the thread ends.
unfoldable pub answer_port : Request → State → ℕ → Next → Step
answer_port r s port next =
    if r.sendable
    then record { state = s; reply = some (print_int port); next = next }
    else record { state = s; reply = none; next = finish }

unfoldable pub quiet : State → Step
quiet s = record { state = s; reply = none; next = receive }

-- The lookup of a key, and the reply.
unfoldable pub answer_found : Request → State → Option ℕ → Next → Served Step
unfolding answer_port
answer_found r s none next = asking
answer_found r s (some port) next = done (answer_port r s port next)

unfoldable pub answer_key : Request → State → ℕ → Next → Served Step
unfolding answer_found retry_find
answer_key r s hash next = answer_found r s (retry_find r.answers s hash) next

-- The port of the predecessor, or 0.
unfoldable pub pre_port : State → ℕ
pre_port s = elim s.prenode [ none ↦ 0 | some pre ↦ pre.port ]

-- The tests of `notify` on the position of the node that notifies.
unfoldable pub is_later : State → Node → ℕ → Bool
is_later s pre hash =
    ltb s.local_node.key pre.key && (ltb pre.key hash || ltb hash s.local_node.key)

unfoldable pub is_nearer : State → Node → ℕ → Bool
is_nearer s pre hash = ltb pre.key s.local_node.key && ltb pre.key hash && ltb hash s.local_node.key

unfoldable pub reset_pre : State → State
reset_pre s = record s { prenode = none }

-- The reply of a step, as a list.
unfoldable pub reply_list : Option (List ℕ) → List (List ℕ)
reply_list none = []
reply_list (some text) = text ∷ []

-- The commands that have an argument. `atoi` of a missing one reads a null pointer.
unfoldable pub with_argument : List ℕ → (ℕ → Served Step) → Served Step
unfolding strtok read_int
with_argument rest serve = elim (strtok rest) [
  | none ↦ null_pointer
  | some (word, later) ↦ serve (read_int word)
]

-- `stable`: the reply is the predecessor, and the thread ends.
unfoldable pub serve_stable : Request → State → Step
unfolding answer_port pre_port
serve_stable r s = answer_port r s (pre_port s) finish

module _ (sha1 : List ℕ → Option Digest) where
  -- `join`: a node that is alone takes the new one for both neighbours.
  unfoldable pub pair_up : Request → State → ℕ → Served Step
  unfolding node_of answer_port
  pair_up r s port = elim s.prenode [
    | none ↦ null_pointer
    | some pre ↦ done (
        answer_port r
          (record s { postnode = node_of sha1 port; prenode = some (node_of sha1 port) })
          s.local_node.port receive)
  ]

  unfoldable pub serve_join : Request → State → ℕ → Served Step
  unfolding pair_up answer_key
  serve_join r s port =
      if s.postnode.port == s.local_node.port
      then pair_up r s port
      else answer_key r s (translate sha1 port) receive

  unfoldable pub adopt_pre : State → ℕ → State
  unfolding node_of is_later is_nearer
  adopt_pre s port = elim s.prenode [
    | none ↦ record s { prenode = some (node_of sha1 port) }
    | some pre ↦
        if is_later s pre (translate sha1 port)
        then record s { prenode = some (node_of sha1 port) }
        else if is_nearer s pre (translate sha1 port)
        then record s { prenode = some (node_of sha1 port) }
        else s
  ]

  -- `keep-alive`: what the predecessor's message says of its own successor.
  unfoldable pub keep_alive : State → ℕ → State
  unfolding node_of
  keep_alive s port = record s { postnode2 = node_of sha1 port }

  -- The chain of comparisons of the command, on one message.
  unfoldable pub serve_command : Request → State → List ℕ → List ℕ → Served Step
  unfolding str_eq with_argument serve_join answer_key serve_stable adopt_pre keep_alive reset_pre
      quiet
  serve_command r s cmd rest =
      if str_eq cmd (ascii "join")
      then with_argument rest (λ port. serve_join r s port)
      else if str_eq cmd (ascii "find")
      then with_argument rest (λ hash. answer_key r s hash receive)
      else if str_eq cmd (ascii "query")
      then done (record { state = s; reply = none; next = receive_keys })
      else if str_eq cmd (ascii "stable")
      then done (serve_stable r s)
      else if str_eq cmd (ascii "notify")
      then with_argument rest (λ port. done (quiet (adopt_pre s port)))
      else if str_eq cmd (ascii "keep-alive")
      then with_argument rest (λ port. done (quiet (keep_alive s port)))
      else if str_eq cmd (ascii "reset-pre")
      then done (quiet (reset_pre s))
      else done (quiet s)

  -- One message at the top of the loop. A message of blanks alone has no command to compare.
  unfoldable pub serve_message : Request → State → Served Step
  unfolding strtok serve_command
  serve_message r s = elim (strtok r.text) [
    | none ↦ null_pointer
    | some (cmd, rest) ↦ serve_command r s cmd rest
  ]

  -- One message in the loop of `query`: its text is a key to look up.
  unfoldable pub serve_key : Request → State → Served Step
  unfolding answer_key hash_function
  serve_key r s = answer_key r s (hash_function sha1 r.text) receive_keys

  unfoldable pub serve_one : Next → Request → State → Served Step
  unfolding serve_message serve_key
  serve_one receive r s = serve_message r s
  serve_one receive_keys r s = serve_key r s
  serve_one finish r s = done (record { state = s; reply = none; next = finish })

  -- The messages of a connection in turn: the state that they leave, and the replies.
  unfoldable pub chord_node : Next → List Request → State → Served (State × List (List ℕ))
  unfolding serve_one reply_list
  chord_node next [] s = done (s, [])
  chord_node next (r ∷ later) s = elim (serve_one next r s) [
    | null_pointer ↦ null_pointer
    | asking ↦ asking
    | done step ↦ elim (chord_node step.next later step.state) [
      | null_pointer ↦ null_pointer
      | asking ↦ asking
      | done (s', replies) ↦ done (s', reply_list step.reply ++ replies)
    ]
  ]
