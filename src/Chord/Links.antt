-- ===== src/Chord/Links.antt =====
-- The messages of `join`, `notify` and `stabilize` (`DHT_Chord/chord/chord.c`) between nodes, each
-- served by `chordNode` of the node that it reaches.
use tiny_projects_and_tools.Base.{
  ℕ, ◌^◌, ◌<◌, ◌≡◌, inl, inr, refl, sym, ap, ap₂, subst, ◌∙◌, true, List, [], ◌∷◌, ◌++◌, Option,
  none, some, ascii, arith,
}
use tiny_projects_and_tools.Base.Decimal.{print_int, is_positive}
use tiny_projects_and_tools.Chord.Hash.{Digest, translate}
use tiny_projects_and_tools.Chord.State.{Node, State, total_keys, node_of, creat_first_node}
use tiny_projects_and_tools.Chord.Ring.{Inside}
use tiny_projects_and_tools.Chord.Stabilize.{
  sent, refused, Message, Calls, notify, stabilize, join, reach_post, deliver, is_refused,
  adopt_post, adopt_reply, reply_of, take_post,
}
use tiny_projects_and_tools.Chord.Handler.{
  Request, done, finish, receive, quiet, pre_port, answer_port, serve_stable, serve_join, pair_up,
  serve_message,
}
use tiny_projects_and_tools.Chord.Closer.{adopt_pre-none, adopt_pre-nearer, adopt_post-nearer}
use tiny_projects_and_tools.Chord.Protocol.{
  read_int-print_int, serve_message-notify, serve_message-stable, serve_message-join,
}

-- A message as it is received.
abbrev pub received : List ℕ → Request
received text = record { text = text; answers = []; sendable = true }

-- A connection that works, with what comes back.
abbrev pub works : List ℕ → Calls
works reply = record { first = sent (some reply); reset = refused; second = refused }

-- A node at the position of its port.
pub record AtHome (sha1 : List ℕ → Option Digest) (s : State) : Type 0 where
  pub own : s.local_node ≡ node_of sha1 s.local_node.port
  pub is_port : s.local_node.port < 2 ^ 32

module _ (sha1 : List ℕ → Option Digest)
    (fits : (port : ℕ) → translate sha1 port < total_keys) where
  AtHome-key : (s : State) → AtHome sha1 s → s.local_node.key ≡ translate sha1 s.local_node.port
  unfolding translate node_of
  AtHome-key s h = ap (λ n. n.key) h.own

  AtHome-lt : (s : State) → AtHome sha1 s → s.local_node.key < total_keys
  AtHome-lt s h = subst (λ k. k < total_keys) (sym (AtHome-key s h)) (fits s.local_node.port)

  -- The two messages that a node sends to a successor that it reaches.
  notify-sends :
      (s : State) (reply : List ℕ)
      → notify sha1 s (works reply) ≡ (
        s,
        record { to = s.postnode.port; text = ascii "notify " ++ print_int s.local_node.port } ∷ [],
      )
  unfolding notify reach_post deliver is_refused
  notify-sends s reply = refl

  stabilize-sends :
      (s : State) (port : ℕ)
      → port < 2 ^ 32
      → stabilize sha1 s (works (print_int port)) ≡ (
        adopt_post sha1 s port,
        record { to = s.postnode.port; text = ascii "stable " ++ print_int s.local_node.port } ∷ [],
      )
  unfolding stabilize reach_post deliver is_refused adopt_reply reply_of
  stabilize-sends s port h = ground (arith, read_int-print_int port h)

  abbrev pub to_port : Node → List ℕ → Message
  to_port n text = record { to = n.port; text = text }

  -- The node notifies its successor; the predecessor asks the successor, and notifies the node.
  abbrev pub Links : State → State → State → Type 0
  Links a b c =
      (notify sha1 c (works [])
        ≡ (c, to_port b.local_node (ascii "notify " ++ print_int c.local_node.port) ∷ []))
      × (serve_message sha1 (received (ascii "notify " ++ print_int c.local_node.port)) b
          ≡ done (quiet (record b { prenode = some c.local_node })))
      × (serve_message sha1 (received (ascii "stable " ++ print_int a.local_node.port))
            (record b { prenode = some c.local_node })
          ≡ done (record {
            state = record b { prenode = some c.local_node };
            reply = some (print_int c.local_node.port);
            next = finish;
          }))
      × (stabilize sha1 a (works (print_int c.local_node.port)) ≡ (
        record a { postnode = c.local_node },
        to_port b.local_node (ascii "stable " ++ print_int a.local_node.port) ∷ [],
      ))
      × (notify sha1 (record a { postnode = c.local_node }) (works []) ≡ (
        record a { postnode = c.local_node },
        to_port c.local_node (ascii "notify " ++ print_int a.local_node.port) ∷ [],
      ))
      × (serve_message sha1 (received (ascii "notify " ++ print_int a.local_node.port)) c
          ≡ done (quiet (record c { prenode = some a.local_node })))

  module _ (a b c : State) (ha : AtHome sha1 a) (hb : AtHome sha1 b) (hc : AtHome sha1 c)
      (positive : is_positive c.local_node.port ≡ true) (post_a : a.postnode ≡ b.local_node)
      (pre_b : b.prenode ≡ some a.local_node) (post_c : c.postnode ≡ b.local_node)
      (pre_c : c.prenode ≡ none)
      (between : Inside a.local_node.key b.local_node.key c.local_node.key) where
    link_pre_b :
        serve_message sha1 (received (ascii "notify " ++ print_int c.local_node.port)) b
        ≡ done (quiet (record b { prenode = some c.local_node }))
    link_pre_b =
        serve_message-notify sha1 (received (ascii "notify " ++ print_int c.local_node.port)) b
          c.local_node.port hc.is_port refl
        ∙ ap (λ z. done (quiet z))
            (elim (adopt_pre-nearer sha1 fits b a.local_node c.local_node.port pre_b
              (AtHome-lt b hb) (AtHome-lt a ha)) [
                | inl (_, e) ↦ e ∙ ap (λ n. record b { prenode = some n }) (sym hc.own)
                | inr (outside, _) ↦ absurd (
                    outside
                      (subst (Inside a.local_node.key b.local_node.key) (AtHome-key c hc) between))
              ])

    link_reply :
        serve_message sha1
          (received (ascii "stable " ++ print_int a.local_node.port))
          (record b { prenode = some c.local_node })
        ≡ done (record {
          state = record b { prenode = some c.local_node };
          reply = some (print_int c.local_node.port);
          next = finish;
        })
    unfolding serve_stable answer_port pre_port
    link_reply =
        serve_message-stable sha1 (received (ascii "stable " ++ print_int a.local_node.port))
          (record b { prenode = some c.local_node }) a.local_node.port refl

    link_post_a : adopt_post sha1 a c.local_node.port ≡ record a { postnode = c.local_node }
    link_post_a =
        elim (adopt_post-nearer sha1 fits a c.local_node.port ha.own
          (subst (λ n. n.key < total_keys) (sym post_a) (AtHome-lt b hb)) positive) [
            | inl (_, e) ↦ e ∙ ap (λ n. record a { postnode = n }) (sym hc.own)
            | inr (outside, _) ↦ absurd (
                outside (
                  subst (λ n. Inside a.local_node.key n.key (translate sha1 c.local_node.port))
                    (sym post_a)
                    (subst (Inside a.local_node.key b.local_node.key) (AtHome-key c hc) between)))
          ]

    link_pre_c :
        serve_message sha1 (received (ascii "notify " ++ print_int a.local_node.port)) c
        ≡ done (quiet (record c { prenode = some a.local_node }))
    link_pre_c =
        serve_message-notify sha1 (received (ascii "notify " ++ print_int a.local_node.port)) c
          a.local_node.port ha.is_port refl
        ∙ ap (λ z. done (quiet z))
            (adopt_pre-none sha1 fits c a.local_node.port pre_c
              ∙ ap (λ n. record c { prenode = some n }) (sym ha.own))

    -- A node that has joined behind its predecessor on the ring, and knows its successor, is linked
    -- in by the messages: the successor takes it for its predecessor, the predecessor for its
    -- successor, and it learns its predecessor.
    pub join-Links : Links a b c
    join-Links = (
      notify-sends c []
          ∙ ap (λ n. (c, to_port n (ascii "notify " ++ print_int c.local_node.port) ∷ [])) post_c,
      link_pre_b,
      link_reply,
      stabilize-sends a c.local_node.port hc.is_port
          ∙ ap₂ (λ s n. (s, to_port n (ascii "stable " ++ print_int a.local_node.port) ∷ []))
              link_post_a post_a,
      notify-sends (record a { postnode = c.local_node }) [],
      link_pre_c,
    )

  abbrev pub paired : State → State → State
  paired a c = record a { postnode = c.local_node; prenode = some c.local_node }

  -- The first answers the `join`, the second takes the answer, and the first notifies it.
  abbrev pub Pairs : State → State → Type 0
  Pairs a c =
      (serve_message sha1 (received (ascii "join " ++ print_int c.local_node.port))
          (creat_first_node a)
        ≡ done (record {
          state = paired a c;
          reply = some (print_int a.local_node.port);
          next = receive;
        }))
      × (join sha1 c a.local_node.port (sent (some (print_int a.local_node.port))) ≡ (
        record c { postnode = a.local_node },
        to_port a.local_node (ascii "join " ++ print_int c.local_node.port) ∷ [],
      ))
      × (notify sha1 (paired a c) (works []) ≡ (
        (paired a c),
        to_port c.local_node (ascii "notify " ++ print_int a.local_node.port) ∷ [],
      ))
      × (serve_message sha1 (received (ascii "notify " ++ print_int a.local_node.port))
            (record c { postnode = a.local_node })
          ≡ done (quiet (record c { postnode = a.local_node; prenode = some a.local_node })))

  module _ (a c : State) (ha : AtHome sha1 a) (hc : AtHome sha1 c) (pre_c : c.prenode ≡ none) where
    pair_up-alone :
        (r : Request)
        → r.sendable ≡ true
        → serve_join sha1 r (creat_first_node a) c.local_node.port
          ≡ done (record {
            state = record a {
              postnode = node_of sha1 c.local_node.port;
              prenode = some (node_of sha1 c.local_node.port);
            };
            reply = some (print_int a.local_node.port);
            next = receive;
          })
    unfolding serve_join pair_up answer_port creat_first_node
    pair_up-alone r h = ground (arith, h)

    join-reads : join sha1 c a.local_node.port (sent (some (print_int a.local_node.port))) ≡ (
      record c { postnode = node_of sha1 a.local_node.port },
      to_port a.local_node (ascii "join " ++ print_int c.local_node.port) ∷ [],
    )
    unfolding join deliver reply_of take_post
    join-reads = ground (arith, read_int-print_int a.local_node.port ha.is_port)

    pair_reply :
        serve_message sha1
          (received (ascii "join " ++ print_int c.local_node.port))
          (creat_first_node a)
        ≡ done (record {
          state = paired a c;
          reply = some (print_int a.local_node.port);
          next = receive;
        })
    pair_reply =
        serve_message-join sha1 (received (ascii "join " ++ print_int c.local_node.port))
          (creat_first_node a) c.local_node.port hc.is_port refl
        ∙ pair_up-alone (received (ascii "join " ++ print_int c.local_node.port)) refl
        ∙ ap
            (λ n. done (record {
              state = record a { postnode = n; prenode = some n };
              reply = some (print_int a.local_node.port);
              next = receive;
            }))
            (sym hc.own)

    -- A node that joins a node that is alone: each becomes both neighbours of the other.
    pub join-Pairs : Pairs a c
    join-Pairs = (
      pair_reply,
      join-reads
          ∙ ap
              (λ n. (
                record c { postnode = n },
                to_port a.local_node (ascii "join " ++ print_int c.local_node.port) ∷ [],
              ))
              (sym ha.own),
      notify-sends (paired a c) [],
      serve_message-notify sha1 (received (ascii "notify " ++ print_int a.local_node.port))
            (record c { postnode = a.local_node }) a.local_node.port ha.is_port refl
          ∙ ap (λ z. done (quiet z))
              (adopt_pre-none sha1 fits (record c { postnode = a.local_node }) a.local_node.port
                  pre_c
                ∙ ap (λ n. record c { postnode = a.local_node; prenode = some n }) (sym ha.own)),
    )
