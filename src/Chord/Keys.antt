-- ===== src/Chord/Keys.antt =====
-- The positions of the neighbours that a node of `DHT_Chord/chord/chord.c` keeps, under what it does
-- on its own.
pub mod Messages
use tiny_projects_and_tools.Base.{
  ℕ, ◌≡◌, refl, subst, Bool, true, false, List, [], ◌∷◌, ◌++◌, Option, none, some, arith,
  if◌then◌else◌,
}
use tiny_projects_and_tools.Chord.Hash.{Digest, translate, hash_function}
use tiny_projects_and_tools.Chord.State.{Node, State, node_of}
use tiny_projects_and_tools.Chord.Stabilize.{
  Attempt, Calls, read_int, fail_over, reach_post, notify, stabilize, adopt_post, adopt_reply,
  take_post, join, heart_beat, reply_of,
}
use tiny_projects_and_tools.Chord.Handler.{
  Request, Next, Step, Served, done, null_pointer, asking, receive, receive_keys, finish,
  answer_port, answer_found, answer_key, pair_up, serve_join, adopt_pre, keep_alive, with_argument,
  serve_command, serve_message, serve_key, serve_one, chord_node, reply_list, quiet, strtok,
  pre_port,
}

abbrev pub AtPort : (List ℕ → Option Digest) → Node → Type 0
AtPort sha1 n = n.key ≡ translate sha1 n.port

abbrev pub AtPort? : (List ℕ → Option Digest) → Option Node → Type 0
AtPort? sha1 none = Unit
AtPort? sha1 (some n) = AtPort sha1 n

pub record IsPlaced (sha1 : List ℕ → Option Digest) (s : State) : Type 0 where
  pub local : AtPort sha1 s.local_node
  pub post : AtPort sha1 s.postnode
  pub post2 : AtPort sha1 s.postnode2
  pub pre : AtPort? sha1 s.prenode

module _ (sha1 : List ℕ → Option Digest) where
  pub with_post :
      (s : State) (port : ℕ)
      → IsPlaced sha1 s
      → IsPlaced sha1 (record s { postnode = node_of sha1 port })
  with_post s port h = record {
    local = h.local;
    post = unfold node_of in refl;
    post2 = h.post2;
    pre = h.pre;
  }

  pub with_pre :
      (s : State) (port : ℕ)
      → IsPlaced sha1 s
      → IsPlaced sha1 (record s { prenode = some (node_of sha1 port) })
  with_pre s port h = record {
    local = h.local;
    post = h.post;
    post2 = h.post2;
    pre = unfold node_of in refl;
  }

  pub without_pre : (s : State) → IsPlaced sha1 s → IsPlaced sha1 (record s { prenode = none })
  without_pre s h = record { local = h.local; post = h.post; post2 = h.post2; pre = tt }

  pub with_post2 :
      (s : State) (port : ℕ)
      → IsPlaced sha1 s
      → IsPlaced sha1 (record s { postnode2 = node_of sha1 port })
  with_post2 s port h = record {
    local = h.local;
    post = h.post;
    post2 = unfold node_of in refl;
    pre = h.pre;
  }

  fail_over-IsPlaced : (s : State) → IsPlaced sha1 s → IsPlaced sha1 (fail_over sha1 s)
  unfolding fail_over
  fail_over-IsPlaced s h =
      with_post2 (record s { postnode = node_of sha1 s.postnode2.port }) s.local_node.port
        (with_post s s.postnode2.port h)

  reach_post-IsPlaced :
      (s : State) (calls : Calls) → IsPlaced sha1 s → IsPlaced sha1 ((reach_post sha1 s calls).0)
  unfolding reach_post
  reach_post-IsPlaced s calls h = ground (arith, fail_over-IsPlaced s h)

  adopt_post-IsPlaced :
      (s : State) (port : ℕ) → IsPlaced sha1 s → IsPlaced sha1 (adopt_post sha1 s port)
  unfolding adopt_post
  adopt_post-IsPlaced s port h = ground (arith, with_post s port h)

  pub adopt_pre-IsPlaced :
      (s : State) (port : ℕ) → IsPlaced sha1 s → IsPlaced sha1 (adopt_pre sha1 s port)
  unfolding adopt_pre
  adopt_pre-IsPlaced s port h = ground (arith, with_pre s port h)

  adopt_reply-IsPlaced :
      (s : State) (reply : Option (List ℕ))
      → IsPlaced sha1 s
      → IsPlaced sha1 (adopt_reply sha1 s reply)
  unfolding adopt_reply
  adopt_reply-IsPlaced s none h = h
  adopt_reply-IsPlaced s (some reply) h = adopt_post-IsPlaced s (read_int reply) h

  notify-IsPlaced :
      (s : State) (calls : Calls) → IsPlaced sha1 s → IsPlaced sha1 ((notify sha1 s calls).0)
  unfolding notify
  notify-IsPlaced s calls h = reach_post-IsPlaced s calls h

  stabilize-IsPlaced :
      (s : State) (calls : Calls) → IsPlaced sha1 s → IsPlaced sha1 ((stabilize sha1 s calls).0)
  unfolding stabilize
  stabilize-IsPlaced s calls h =
      adopt_reply-IsPlaced ((reach_post sha1 s calls).0) (reply_of ((reach_post sha1 s calls).2))
        (reach_post-IsPlaced s calls h)

  heart_beat-IsPlaced :
      (s : State) (call : Attempt) → IsPlaced sha1 s → IsPlaced sha1 ((heart_beat sha1 s call).0)
  unfolding heart_beat
  heart_beat-IsPlaced s call h = ground (arith, without_pre s h)

  join-IsPlaced :
      (s : State) (port : ℕ) (call : Attempt)
      → IsPlaced sha1 s
      → IsPlaced sha1 ((join sha1 s port call).0)
  unfolding join take_post
  join-IsPlaced s port call h = took (reply_of call)
    where
      took : (reply : Option (List ℕ)) → IsPlaced sha1 (take_post sha1 s reply)
      took none = h
      took (some reply) = with_post s (read_int reply) h

  -- `notify`, `stabilize`, `heartBeat` and `join` keep every neighbour at the position of its port,
  -- however far each connection comes and whatever it brings back.
  pub rounds-IsPlaced :
      (s : State) (calls : Calls) (call : Attempt) (port : ℕ)
      → IsPlaced sha1 s
      → IsPlaced sha1 ((notify sha1 s calls).0)
        × IsPlaced sha1 ((stabilize sha1 s calls).0)
        × IsPlaced sha1 ((heart_beat sha1 s call).0)
        × IsPlaced sha1 ((join sha1 s port call).0)
  rounds-IsPlaced s calls call port h = (
    notify-IsPlaced s calls h,
    stabilize-IsPlaced s calls h,
    heart_beat-IsPlaced s call h,
    join-IsPlaced s port call h,
  )
