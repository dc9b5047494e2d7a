-- ===== src/Chord/Stabilize.antt =====
-- What a node of `DHT_Chord/chord/chord.c` does on its own: `notify`, `stabilize`, `resetPreNode`,
-- `heartBeat`, `join`, and a round of `updateFingerTable`. What the network does is an argument: how
-- far each connection comes, and what it brings back.
use tiny_projects_and_tools.Base.{
  ℕ, zero, suc, ◌+◌, Bool, true, false, not, ◌&&◌, ◌||◌, List, [], ◌∷◌, ◌++◌, Option, none, some,
  ltb, ◌==◌, ascii, if◌then◌else◌, ◌>>=◌,
}
use tiny_projects_and_tools.Base.Decimal.{print_int, is_positive}
use tiny_projects_and_tools.Base.CString.{atoi, to_unsigned}
use tiny_projects_and_tools.Chord.Hash.{Digest, translate}
use tiny_projects_and_tools.Chord.State.{State, finger_num, node_of}
use tiny_projects_and_tools.Chord.Lookup.{fix_fingers}

-- How a connection goes: `socket`, `connect` or `send` fails, or the message is sent, and then the
-- text that `recv` leaves in the reply, or `none` where it fails.
pub data Attempt : Type 0 where
  no_socket : Attempt
  refused : Attempt
  unsent : Attempt
  sent : Option (List ℕ) → Attempt

-- A message that reached a port.
pub record Message : Type 0 where
  pub to : ℕ
  pub text : List ℕ

-- `atoi` into an `int`.
unfoldable pub read_int : List ℕ → ℕ
read_int text = to_unsigned 32 (atoi text)

-- The message, where the attempt sent it.
unfoldable pub deliver : Attempt → ℕ → List ℕ → List Message
deliver no_socket to text = []
deliver refused to text = []
deliver unsent to text = []
deliver (sent reply) to text = record { to = to; text = text } ∷ []

unfoldable pub is_refused : Attempt → Bool
is_refused no_socket = false
is_refused refused = true
is_refused unsent = false
is_refused (sent reply) = false

-- The reply, where there is one.
unfoldable pub reply_of : Attempt → Option (List ℕ)
reply_of no_socket = none
reply_of refused = none
reply_of unsent = none
reply_of (sent reply) = reply

-- `resetPreNode(port)`.
unfoldable pub reset_pre_node : Attempt → ℕ → List Message
unfolding deliver
reset_pre_node call port = deliver call port (ascii "reset-pre")

-- The three connections that `notify` and `stabilize` may open: to the successor, for `resetPreNode`,
-- and to the successor's successor.
pub record Calls : Type 0 where
  pub first : Attempt
  pub reset : Attempt
  pub second : Attempt

-- The tests on the successor's predecessor, which is `recv_port` at `recv_hash`.
unfoldable pub is_between : State → ℕ → Bool
is_between s recv_hash =
    ltb s.local_node.key s.postnode.key
    && ltb s.local_node.key recv_hash
    && ltb recv_hash s.postnode.key

unfoldable pub is_between_wrapped : State → ℕ → ℕ → Bool
is_between_wrapped s recv_port recv_hash =
    ltb s.postnode.key s.local_node.key
    && not (recv_port == s.local_node.port)
    && (ltb s.local_node.key recv_hash || ltb recv_hash s.postnode.key)

module _ (sha1 : List ℕ → Option Digest) where
  -- A refused connection to the successor: its own successor takes its place.
  unfoldable pub fail_over : State → State
  unfolding node_of
  fail_over s = record s {
    postnode = node_of sha1 s.postnode2.port;
    postnode2 = node_of sha1 s.local_node.port;
  }

  -- The state with a living successor, the messages sent on the way and the attempt that counts.
  unfoldable pub reach_post : State → Calls → State × List Message × Attempt
  unfolding fail_over reset_pre_node is_refused
  reach_post s calls =
      if is_refused calls.first
      then (fail_over s, reset_pre_node calls.reset (fail_over s).postnode.port, calls.second)
      else (s, [], calls.first)

  unfoldable pub notify : State → Calls → State × List Message
  unfolding reach_post deliver
  notify s calls =
      let (s', messages, call) = reach_post s calls in
      (
        s',
        messages ++ deliver call s'.postnode.port (ascii "notify " ++ print_int s'.local_node.port),
      )

  -- The port that the successor takes for its predecessor.
  unfoldable pub adopt_post : State → ℕ → State
  unfolding is_between is_between_wrapped node_of
  adopt_post s recv_port =
      if is_positive recv_port
      then if is_between s (translate sha1 recv_port)
        then record s { postnode = node_of sha1 recv_port }
        else if is_between_wrapped s recv_port (translate sha1 recv_port)
        then record s { postnode = node_of sha1 recv_port }
        else s
      else s

  unfoldable pub adopt_reply : State → Option (List ℕ) → State
  unfolding adopt_post read_int
  adopt_reply s none = s
  adopt_reply s (some reply) = adopt_post s (read_int reply)

  unfoldable pub stabilize : State → Calls → State × List Message
  unfolding reach_post deliver adopt_reply reply_of
  stabilize s calls =
      let (s', messages, call) = reach_post s calls in
      (
        adopt_reply s' (reply_of call),
        messages ++ deliver call s'.postnode.port (ascii "stable " ++ print_int s'.local_node.port),
      )

  -- `heartBeat`: a predecessor that refuses the connection is forgotten.
  unfoldable pub heart_beat : State → Attempt → State × List Message
  unfolding deliver is_refused
  heart_beat s call = elim s.prenode [
    | none ↦ (s, [])
    | some pre ↦ (
      if is_refused call then record s { prenode = none } else s,
      deliver call pre.port (ascii "keep-alive " ++ print_int s.postnode.port),
    )
  ]

  -- `join(connectPort)`: the reply becomes the successor. A reply that fails leaves it.
  unfoldable pub take_post : State → Option (List ℕ) → State
  unfolding read_int node_of
  take_post s none = s
  take_post s (some reply) = record s { postnode = node_of sha1 (read_int reply) }

  unfoldable pub join : State → ℕ → Attempt → State × List Message
  unfolding take_post deliver reply_of
  join s connect_port call = (
    take_post s (reply_of call),
    deliver call connect_port (ascii "join " ++ print_int s.local_node.port),
  )

  -- The loop of `updateFingerTable` over the fingers from index `i` on. `answers i` is what the
  -- network answers while finger `i` is looked up.
  unfoldable pub fix_all : ℕ → (ℕ → List (ℕ → ℕ → Option ℕ)) → State → ℕ → Option State
  unfolding fix_fingers
  fix_all zero answers s i = some s
  fix_all (suc left) answers s i =
      fix_fingers sha1 (answers i) s i >>= λ s'. fix_all left answers s' (i + 1)

  -- One round of `updateFingerTable`.
  unfoldable pub update_round :
      (ℕ → List (ℕ → ℕ → Option ℕ))
      → Calls
      → Calls
      → Attempt
      → State
      → Option (State × List Message)
  unfolding fix_all stabilize notify heart_beat
  update_round answers to_stabilize to_notify beat s = do
    s' ← fix_all finger_num answers s 0
    some (
        let (s1, m1) = stabilize s' to_stabilize in
        let (s2, m2) = notify s1 to_notify in
        let (s3, m3) = heart_beat s2 beat in (s3, m1 ++ m2 ++ m3))
