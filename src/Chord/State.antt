-- ===== src/Chord/State.antt =====
-- The state of a node of `DHT_Chord/chord/chord.c`: where it stands on the ring, its finger table and
-- its neighbours. Each pointer of the source has an allocation of its own, so nodes are values; a
-- null `prenode` is `none`.
use tiny_projects_and_tools.Base.{ℕ, zero, suc, ◌+◌, ◌%◌, ◌^◌, List, [], ◌∷◌, Option, none, some}
use tiny_projects_and_tools.Chord.Hash.{Digest, translate}

pub record Node : Type 0 where
  pub port : ℕ
  pub key : ℕ

pub record Entry : Type 0 where
  pub start : ℕ
  pub node_info : Node

pub record State : Type 0 where
  pub local_node : Node
  pub fin_tb : List Entry
  pub postnode : Node
  pub postnode2 : Node
  pub prenode : Option Node

abbrev pub finger_num : ℕ
finger_num = 32

abbrev pub total_keys : ℕ
total_keys = 2 ^ 32

module _ (sha1 : List ℕ → Option Digest) where
  -- A port with its position.
  unfoldable pub node_of : ℕ → Node
  node_of port = record { port = port; key = translate sha1 port }

  -- The loop of `main` that makes the finger table, from index `i` on: every finger is the node itself.
  unfoldable pub init_fingers : ℕ → ℕ → Node → List Entry
  init_fingers zero i self = []
  init_fingers (suc left) i self =
      record { start = (self.key + 2 ^ i) % total_keys; node_info = self }
      ∷ init_fingers left (i + 1) self

  -- `main` up to the choice between a first node and a join. What `malloc` leaves in `postnode` is
  -- `garbage`.
  unfoldable pub init_state : ℕ → Node → State
  unfolding node_of init_fingers
  init_state port garbage = record {
    local_node = node_of port;
    fin_tb = init_fingers finger_num 0 (node_of port);
    postnode = garbage;
    postnode2 = node_of port;
    prenode = none;
  }

-- `creatFirstNode`: a ring of one node.
unfoldable pub creat_first_node : State → State
creat_first_node s = record s { postnode = s.local_node; prenode = some s.local_node }
