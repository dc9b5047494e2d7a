-- ===== src/Chord/Lookup.antt =====
-- `findClosestPort` and `fix_fingers` of `DHT_Chord/chord/chord.c`.
use tiny_projects_and_tools.Base.{
  ℕ, zero, suc, Bool, ◌&&◌, ◌||◌, List, [], ◌∷◌, Option, none, some, ltb, leb, ◌==◌, if◌then◌else◌,
  get_elem?, ◌>>=◌, store,
}
use tiny_projects_and_tools.Chord.Hash.{Digest}
use tiny_projects_and_tools.Chord.State.{Node, Entry, State, finger_num, node_of}

-- The two tests by which the successor is responsible for a key.
unfoldable pub is_after : State → ℕ → Bool
is_after s hash = ltb s.local_node.key hash && leb hash s.postnode.key

unfoldable pub is_wrapped : State → ℕ → Bool
is_wrapped s hash =
    (ltb s.local_node.key hash || ltb hash s.postnode.key) && ltb s.postnode.key s.local_node.key

-- The test of a finger's position.
unfoldable pub precedes : ℕ → ℕ → ℕ → Bool
precedes self hash key =
    (ltb self key && ltb key hash)
    || (ltb hash self && ltb self key)
    || (ltb hash self && ltb key hash)

-- The loop over the finger table, from the last finger down: the first finger that the test takes.
unfoldable pub scan_fingers : ℕ → ℕ → ℕ → List Entry → Option Node
scan_fingers zero self hash fingers = none
scan_fingers (suc i) self hash fingers = elim (get_elem? fingers i) [
  | none ↦ none
  | some e ↦
      let rest = scan_fingers i self hash fingers in
      if precedes self hash e.node_info.key then some e.node_info else rest
]

-- What a node decides by itself: an answer, or a node to ask.
pub data Decision : Type 0 where
  answer : ℕ → Decision
  ask : Node → Decision

unfoldable pub decide_finger : State → Option Node → Decision
decide_finger s none = answer s.local_node.port
decide_finger s (some n) = ask n

unfoldable pub decide_port : State → ℕ → Decision
unfolding is_after is_wrapped precedes scan_fingers decide_finger
decide_port s hash =
    if is_after s hash
    then answer s.postnode.port
    else if is_wrapped s hash
    then answer s.postnode.port
    else decide_finger s (scan_fingers finger_num s.local_node.key hash s.fin_tb)

-- `findClosestPort`. `find` is what a request `find` to a port brings back; `none`, an error on the
-- way, is the 0 of the source.
unfoldable pub find_closest_port : (ℕ → ℕ → Option ℕ) → State → ℕ → ℕ
unfolding decide_port
find_closest_port find s hash = elim (decide_port s hash) [
  | answer port ↦ port
  | ask n ↦ elim (find n.port hash) [ none ↦ 0 | some port ↦ port ]
]

-- `while(result == 0) result = findClosestPort(hash)`: the answers of the network in turn, one table
-- of answers for each attempt. `none` means that no attempt has brought an answer yet.
unfoldable pub retry_find : List (ℕ → ℕ → Option ℕ) → State → ℕ → Option ℕ
unfolding find_closest_port
retry_find [] s hash = none
retry_find (find ∷ later) s hash =
    let rest = retry_find later s hash in
    let result = find_closest_port find s hash in if result == 0 then rest else some result

-- `fix_fingers(i)`, with the port that the lookup of the finger's start has brought.
module _ (sha1 : List ℕ → Option Digest) where
  unfoldable pub set_finger : State → ℕ → ℕ → Option State
  unfolding node_of
  set_finger s i port = do
    e ← get_elem? s.fin_tb i
    fin_tb' ← store s.fin_tb i (record e { node_info = node_of sha1 port })
    some (record s { fin_tb = fin_tb' })

  unfoldable pub fix_fingers : List (ℕ → ℕ → Option ℕ) → State → ℕ → Option State
  unfolding retry_find set_finger
  fix_fingers answers s i = do
    e ← get_elem? s.fin_tb i
    port ← retry_find answers s e.start
    set_finger s i port
