-- ===== src/Chord/Keys/Messages.antt =====
-- The positions of the neighbours under the messages that `chordNode` of `DHT_Chord/chord/chord.c`
-- serves.
use tiny_projects_and_tools.Base.{
  ℕ, ◌≡◌, subst, Bool, true, false, List, [], ◌∷◌, ◌++◌, Option, none, some, arith, if◌then◌else◌,
}
use tiny_projects_and_tools.Chord.Hash.{Digest, translate, hash_function}
use tiny_projects_and_tools.Chord.State.{State, node_of}
use tiny_projects_and_tools.Chord.Stabilize.{read_int}
use tiny_projects_and_tools.Chord.Handler.{
  Request, Next, Step, Served, done, null_pointer, asking, receive, receive_keys, finish,
  answer_port, answer_found, answer_key, pair_up, serve_join, adopt_pre, keep_alive, with_argument,
  serve_command, serve_message, serve_key, serve_one, chord_node, reply_list, quiet, strtok,
  pre_port,
}
use tiny_projects_and_tools.Chord.Keys.{
  IsPlaced, with_post, with_pre, without_pre, with_post2, adopt_pre-IsPlaced,
}

module _ (sha1 : List ℕ → Option Digest) where
  -- A step that serves keeps the places, whatever is asked.
  abbrev pub Keeps : Served Step → Type 0
  Keeps (done step) = IsPlaced sha1 step.state
  Keeps null_pointer = Unit
  Keeps asking = Unit

  answer_key-Keeps :
      (r : Request) (s : State) (hash : ℕ) (next : Next)
      → IsPlaced sha1 s
      → Keeps (answer_key r s hash next)
  unfolding answer_key answer_found answer_port
  answer_key-Keeps r s hash next h = ground (arith, h)

  if_Keeps : (b : Bool) (x y : Served Step) → Keeps x → Keeps y → Keeps (if b then x else y)
  if_Keeps true x y h k = h
  if_Keeps false x y h k = k

  answer_port-Keeps :
      (r : Request) (s : State) (port : ℕ) (next : Next)
      → IsPlaced sha1 s
      → IsPlaced sha1 ((answer_port r s port next).state)
  unfolding answer_port
  answer_port-Keeps r s port next h = ground (arith, h)

  pair_up-Keeps :
      (r : Request) (s : State) (port : ℕ) → IsPlaced sha1 s → Keeps (pair_up sha1 r s port)
  unfolding pair_up
  pair_up-Keeps r s port h =
      let paired =
        with_pre sha1 (record s { postnode = node_of sha1 port }) port (with_post sha1 s port h) in
      ground (
        arith,
        answer_port-Keeps r
            (record s { postnode = node_of sha1 port; prenode = some (node_of sha1 port) })
            s.local_node.port receive paired,
      )

  serve_join-Keeps :
      (r : Request) (s : State) (port : ℕ) → IsPlaced sha1 s → Keeps (serve_join sha1 r s port)
  unfolding serve_join
  serve_join-Keeps r s port h =
      if_Keeps _ _ _ (pair_up-Keeps r s port h)
        (answer_key-Keeps r s (translate sha1 port) receive h)

  with_argument-Keeps :
      (rest : List ℕ) (serve : ℕ → Served Step)
      → ((n : ℕ) → Keeps (serve n))
      → Keeps (with_argument rest serve)
  unfolding with_argument
  with_argument-Keeps rest serve h = go (strtok rest)
    where
      go :
          (w : Option (List ℕ × List ℕ))
          → Keeps (elim w [ none ↦ null_pointer | some (word, later) ↦ serve (read_int word) ])
      go none = tt
      go (some (word, later)) = h (read_int word)

  serve_command-Keeps :
      (r : Request) (s : State) (cmd rest : List ℕ)
      → IsPlaced sha1 s
      → Keeps (serve_command sha1 r s cmd rest)
  unfolding serve_command
  serve_command-Keeps r s cmd rest h = ground (
    arith,
    with_argument-Keeps rest (serve_join sha1 r s) (λ p. serve_join-Keeps r s p h),
    with_argument-Keeps rest (λ n. answer_key r s n receive)
        (λ n. answer_key-Keeps r s n receive h),
    answer_port-Keeps r s (pre_port s) finish h,
    with_argument-Keeps rest (λ p. done (quiet (adopt_pre sha1 s p)))
        (λ p. adopt_pre-IsPlaced sha1 s p h),
    with_argument-Keeps rest (λ p. done (quiet (keep_alive sha1 s p))) (λ p. with_post2 sha1 s p h),
    without_pre sha1 s h,
  )

  serve_one-Keeps :
      (next : Next) (r : Request) (s : State) → IsPlaced sha1 s → Keeps (serve_one sha1 next r s)
  unfolding serve_one serve_message serve_key
  serve_one-Keeps finish r s h = h
  serve_one-Keeps receive_keys r s h =
      answer_key-Keeps r s (hash_function sha1 r.text) receive_keys h
  serve_one-Keeps receive r s h = go (strtok r.text)
    where
      go :
          (w : Option (List ℕ × List ℕ))
          → Keeps
              (elim w [ none ↦ null_pointer | some (cmd, rest) ↦ serve_command sha1 r s cmd rest ])
      go none = tt
      go (some (cmd, rest)) = serve_command-Keeps r s cmd rest h

  -- The state that a connection leaves, where it does not end on a null pointer or in a lookup.
  abbrev pub KeepsAll : Served (State × List (List ℕ)) → Type 0
  KeepsAll (done (s, replies)) = IsPlaced sha1 s
  KeepsAll null_pointer = Unit
  KeepsAll asking = Unit

  chord_node-KeepsAll :
      (next : Next) (rs : List Request) (s : State)
      → IsPlaced sha1 s
      → KeepsAll (chord_node sha1 next rs s)
  unfolding chord_node
  chord_node-KeepsAll next [] s h = h
  chord_node-KeepsAll next (r ∷ rs) s h =
      go (λ n s' k. chord_node-KeepsAll n rs s' k) (serve_one sha1 next r s)
        (serve_one-Keeps next r s h)
    where
      prefix :
          (replies : List (List ℕ)) (w : Served (State × List (List ℕ)))
          → KeepsAll w
          → KeepsAll (elim w [
            | null_pointer ↦ null_pointer
            | asking ↦ asking
            | done (s', later) ↦ done (s', replies ++ later)
          ])
      prefix replies (done (s', later)) k = k
      prefix replies null_pointer k = tt
      prefix replies asking k = tt

      go :
          ((n : Next) (s' : State) → IsPlaced sha1 s' → KeepsAll (chord_node sha1 n rs s'))
          → (w : Served Step) → Keeps w
          → KeepsAll (elim w [
            | null_pointer ↦ null_pointer
            | asking ↦ asking
            | done step ↦ elim (chord_node sha1 step.next rs step.state) [
              | null_pointer ↦ null_pointer
              | asking ↦ asking
              | done (s', replies) ↦ done (s', reply_list step.reply ++ replies)
            ]
          ])
      go ih (done step) k = prefix (reply_list step.reply) _ (ih step.next step.state k)
      go ih null_pointer k = tt
      go ih asking k = tt

  -- Whatever messages a connection brings, in whichever loop it begins: if every neighbour that the
  -- node keeps stands at the position of its port, so it does in the state that the connection
  -- leaves, when it ends without a null pointer and without a lookup that is still asking.
  pub chord_node-IsPlaced :
      (next : Next) (rs : List Request) (s s' : State) (replies : List (List ℕ))
      → IsPlaced sha1 s
      → chord_node sha1 next rs s ≡ done (s', replies)
      → IsPlaced sha1 s'
  chord_node-IsPlaced next rs s s' replies h e = subst KeepsAll e (chord_node-KeepsAll next rs s h)
