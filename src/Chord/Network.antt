-- ===== src/Chord/Network.antt =====
-- Lookups across the nodes of a ring (`findClosestPort` and the `find` requests of
-- `DHT_Chord/chord/chord.c`): a node that cannot answer asks a finger, whose node does the same.
use tiny_projects_and_tools.Base.{
  ℕ, zero, suc, ◌^◌, ◌∷◌, replicate, ◌≤◌, ◌<◌, ◌≡◌, ◌≢◌, ◌⊎◌, inl, inr, refl, sym, ap, subst, ◌∙◌,
  true, false, ◌||◌, List, Option, none, some, length, get_elem?, ◌>>=◌, arith, Bool-cases,
  Option-cases,
}
use tiny_projects_and_tools.Base.Decimal.{print_unsigned, print_int}
use tiny_projects_and_tools.Base.RoundTrip.{to_unsigned-print_unsigned}
use tiny_projects_and_tools.Chord.Stabilize.{read_int}
use tiny_projects_and_tools.Chord.Protocol.{read_int-print_int}
use tiny_projects_and_tools.Chord.State.{Node, Entry, State, finger_num, total_keys}
use tiny_projects_and_tools.Chord.Lookup.{
  is_after, is_wrapped, precedes, scan_fingers, answer, ask, decide_finger, decide_port,
  find_closest_port, retry_find,
}
use tiny_projects_and_tools.Chord.Ring.{
  distance, precedes_iff, responsible_iff, distance_falls, scan_fingers_sound,
  scan_fingers_complete,
}

-- The states of the nodes by their ports.
abbrev pub Net : Type 0
Net = ℕ → Option State

-- What a `find` request to a port brings back while nothing changes; `hops` bounds how many nodes
-- pass it on, and how often each of them tries again. The key is printed by the node that asks and
-- read by the one that answers, and the port of the answer the other way.
unfoldable pub find_in : Net → ℕ → ℕ → ℕ → Option ℕ
unfolding read_int print_unsigned print_int retry_find
find_in net zero port hash = none
find_in net (suc hops) port hash = do
  s ← net port
  result ← retry_find (replicate (suc hops) (find_in net hops)) s (read_int (print_unsigned hash))
  some (read_int (print_int result))

pub record InRing (net : Net) (s : State) : Type 0 where
  pub fits : s.local_node.key < total_keys
  pub fits_post : s.postnode.key < total_keys
  pub port : s.local_node.port ≢ 0
  pub port_post : s.postnode.port ≢ 0
  pub port_fits : s.local_node.port < 2 ^ 32
  pub port_post_fits : s.postnode.port < 2 ^ 32
  pub fingers : length s.fin_tb ≡ finger_num
  -- The first finger is the successor.
  pub first : Entry
  pub first_at : get_elem? s.fin_tb 0 ≡ some first
  pub first_post : first.node_info ≡ s.postnode
  -- Every finger is a node of the ring at its position.
  pub known :
      (j : ℕ) (e : Entry)
      → get_elem? s.fin_tb j ≡ some e
      → (t : State) × (net e.node_info.port ≡ some t) × (t.local_node.key ≡ e.node_info.key)

abbrev pub IsRing : Net → Type 0
IsRing net = (port : ℕ) (s : State) → net port ≡ some s → InRing net s

-- The node that a lookup should end at: the key lies behind a node up to its successor, which is
-- the answer; or the key is a node's own position; or the node is alone.
pub record Owner (net : Net) (hash port : ℕ) : Type 0 where
  pub asked : ℕ
  pub node : State
  pub there : net asked ≡ some node
  pub owns :
      ((0 < distance node.local_node.key hash)
        × (distance node.local_node.key hash ≤ distance node.local_node.key node.postnode.key)
        × (port ≡ node.postnode.port))
      ⊎ (((hash ≡ node.local_node.key) ⊎ (node.postnode.key ≡ node.local_node.key))
          × (port ≡ node.local_node.port))

-- The three ways in which a node decides.
decide_cases :
    (s : State) (hash : ℕ)
    → ((decide_port s hash ≡ answer s.postnode.port)
        × ((is_after s hash || is_wrapped s hash) ≡ true))
      ⊎ ((decide_port s hash ≡ answer s.local_node.port)
          × ((is_after s hash || is_wrapped s hash) ≡ false)
          × (scan_fingers finger_num s.local_node.key hash s.fin_tb ≡ none))
      ⊎ ((n : Node) × (decide_port s hash ≡ ask n)
          × (scan_fingers finger_num s.local_node.key hash s.fin_tb ≡ some n))
unfolding decide_port decide_finger
decide_cases s hash = elim (Bool-cases (is_after s hash)) [
  | inl after ↦ inl (ground (arith, after))
  | inr not_after ↦ elim (Bool-cases (is_wrapped s hash)) [
    | inl wrapped ↦ inl (ground (arith, not_after, wrapped))
    | inr not_wrapped ↦
        elim (Option-cases (scan_fingers finger_num s.local_node.key hash s.fin_tb)) [
          | inl nothing ↦ inr (inl (ground (arith, not_after, not_wrapped, nothing)))
          | inr (n, found) ↦ inr (inr (n, ground (arith, not_after, not_wrapped, found), found))
        ]
  ]
]

≤_of_eq : {m n : ℕ} → m ≡ n → m ≤ n
≤_of_eq h = omega (arith, h)

-- Neither the successor nor the first finger takes the key: it is the node's own, or the node is
-- its own successor.
no_owner :
    (s : State) (hash : ℕ)
    → s.local_node.key < total_keys
    → s.postnode.key < total_keys
    → hash < total_keys
    → (hash ≢ s.postnode.key) ⊎ (s.local_node.key ≤ s.postnode.key)
    → (is_after s hash || is_wrapped s hash) ≡ false
    → precedes s.local_node.key hash s.postnode.key ≡ false
    → (hash ≡ s.local_node.key) ⊎ (s.postnode.key ≡ s.local_node.key)
unfolding is_after is_wrapped precedes
no_owner s hash hl hp hh hit not_post passed = ground arith

read_int-print_unsigned : (n : ℕ) → n < 2 ^ 32 → read_int (print_unsigned n) ≡ n
unfolding read_int
read_int-print_unsigned n h = to_unsigned-print_unsigned n h

retry_find-first :
    (find : ℕ → ℕ → Option ℕ) (later : List (ℕ → ℕ → Option ℕ)) (s : State) (hash p : ℕ)
    → find_closest_port find s hash ≡ p
    → p ≢ 0
    → retry_find (find ∷ later) s hash ≡ some p
unfolding retry_find
retry_find-first find later s hash p found ne = ground (arith, found)

module _ (net : Net) (ring : IsRing net) (hash : ℕ) (fits : hash < total_keys)
    (hits : (p : ℕ) (t : State)
      → net p ≡ some t
      → (hash ≢ t.postnode.key) ⊎ (t.local_node.key ≤ t.postnode.key)) where
  -- A lookup whose first attempt brings an answer.
  find_in-step :
      (hops port : ℕ) (s : State) (p : ℕ)
      → net port ≡ some s
      → find_closest_port (find_in net hops) s hash ≡ p
      → p ≢ 0
      → p < 2 ^ 32
      → find_in net (suc hops) port hash ≡ some p
  unfolding find_in
  find_in-step hops port s p at found ne h =
      ap (λ o. o >>= λ s. tried (read_int (print_unsigned hash)) s) at
      ∙ ap (λ k. tried k s) (read_int-print_unsigned hash fits)
      ∙ ap (λ o. o >>= λ result. some (read_int (print_int result)))
          (retry_find-first (find_in net hops) (replicate hops (find_in net hops)) s hash p found
            ne)
      ∙ ap some (read_int-print_int p h)
    where
      tried : ℕ → State → Option ℕ
      tried key s = retry_find (replicate (suc hops) (find_in net hops)) s key >>= λ result.
          some (read_int (print_int result))

  -- A step of the lookup, by what the node decides.
  find_answer :
      (hops port : ℕ) (s : State) (p : ℕ)
      → net port ≡ some s
      → decide_port s hash ≡ answer p
      → p ≢ 0
      → p < 2 ^ 32
      → find_in net (suc hops) port hash ≡ some p
  unfolding find_closest_port
  find_answer hops port s p at d ne h = find_in-step hops port s p at (ground (arith, d)) ne h

  find_ask :
      (hops port : ℕ) (s : State) (n : Node) (q : ℕ)
      → net port ≡ some s
      → decide_port s hash ≡ ask n
      → find_in net hops n.port hash ≡ some q
      → q ≢ 0
      → q < 2 ^ 32
      → find_in net (suc hops) port hash ≡ some q
  unfolding find_closest_port
  find_ask hops port s n q at d below ne h =
      find_in-step hops port s q at (ground (arith, d, below)) ne h

  -- The port of an owner is that of a node of the ring.
  Owner-fits : (q : ℕ) → Owner net hash q → q < 2 ^ 32
  Owner-fits q o = elim (o.owns) [
    | inl (_, _, e) ↦ subst (λ p. p < 2 ^ 32) (sym e) (ring o.asked o.node o.there).port_post_fits
    | inr (_, e) ↦ subst (λ p. p < 2 ^ 32) (sym e) (ring o.asked o.node o.there).port_fits
  ]

  -- A node whose successor is responsible.
  answer_post :
      (port : ℕ) (s : State)
      → net port ≡ some s
      → (is_after s hash || is_wrapped s hash) ≡ true
      → Owner net hash s.postnode.port
  answer_post port s at h =
      let r = ring port s at in
      let (before, within, _) = (responsible_iff s hash r.fits r.fits_post fits).0 h in
      record { asked = port; node = s; there = at; owns = inl (before, within, refl) }

  -- A node that knows nobody closer is at the key itself, or alone.
  self_owns :
      (port : ℕ) (s : State)
      → net port ≡ some s
      → (is_after s hash || is_wrapped s hash) ≡ false
      → scan_fingers finger_num s.local_node.key hash s.fin_tb ≡ none
      → (hash ≡ s.local_node.key) ⊎ (s.postnode.key ≡ s.local_node.key)
  self_owns port s at not_post nothing =
      let r = ring port s at in
      let passed =
        ap (λ (n : Node). precedes s.local_node.key hash n.key) (sym r.first_post)
        ∙ scan_fingers_complete finger_num s.local_node.key hash s.fin_tb (≤_of_eq (sym r.fingers))
            nothing 0 r.first (omega arith) r.first_at in
      no_owner s hash r.fits r.fits_post fits (hits port s at) not_post passed

  answer_self :
      (port : ℕ) (s : State)
      → net port ≡ some s
      → (is_after s hash || is_wrapped s hash) ≡ false
      → scan_fingers finger_num s.local_node.key hash s.fin_tb ≡ none
      → Owner net hash s.local_node.port
  answer_self port s at not_post nothing = record {
    asked = port;
    node = s;
    there = at;
    owns = inr (self_owns port s at not_post nothing, refl);
  }

  -- A finger that is asked is a node of the ring, and strictly closer to the key.
  asked_closer :
      (port : ℕ) (s : State) (n : Node)
      → net port ≡ some s
      → scan_fingers finger_num s.local_node.key hash s.fin_tb ≡ some n
      → (t : State) × (net n.port ≡ some t)
        × (distance t.local_node.key hash < distance s.local_node.key hash)
  asked_closer port s n at found =
      let r = ring port s at in
      let (j, e, there, same, passes) =
        scan_fingers_sound finger_num s.local_node.key hash s.fin_tb n found in
      let (t, known, at_key) = r.known j e there in
      let rt = ring e.node_info.port t known in
      let rest =
        distance_falls s.local_node.key hash e.node_info.key r.fits fits (key_fits e t rt at_key)
          ((precedes_iff _ hash _ r.fits fits (key_fits e t rt at_key)).0 passes) in
      (
        t,
        ap (λ (z : Node). net z.port) (sym same) ∙ known,
        subst (λ k. distance k hash < distance s.local_node.key hash) (sym at_key) rest,
      )
    where
      key_fits :
          (e : Entry) (t : State)
          → InRing net t
          → t.local_node.key ≡ e.node_info.key
          → e.node_info.key < total_keys
      key_fits e t rt same = subst (λ k. k < total_keys) same rt.fits

  -- In a ring whose nodes know their successors and have only nodes of the ring for fingers, with
  -- keys and ports of 32 bits, a lookup that may take more hops than the distance to the key
  -- ends, with a port that is not 0 and owns the key, through the printed keys and replies, if no
  -- node has its successor exactly at the key where the ring wraps between them. Each hop comes
  -- closer to the key, so the distance to it bounds the hops.
  pub find_in-Owner :
      (hops port : ℕ) (s : State)
      → net port ≡ some s
      → distance s.local_node.key hash < hops
      → (q : ℕ) × (find_in net hops port hash ≡ some q) × (q ≢ 0) × Owner net hash q
  find_in-Owner zero port s at enough = absurd (omega arith)
  find_in-Owner (suc hops) port s at enough = elim (decide_cases s hash) [
    | inl (d, post) ↦
        let r = ring port s at in
        (
          s.postnode.port,
          find_answer hops port s _ at d r.port_post r.port_post_fits,
          r.port_post,
          answer_post port s at post,
        )
    | inr (inl (d, not_post, nothing)) ↦
        let r = ring port s at in
        (
          s.local_node.port,
          find_answer hops port s _ at d r.port r.port_fits,
          r.port,
          answer_self port s at not_post nothing,
        )
    | inr (inr (n, d, found)) ↦
        let (t, there, closer) = asked_closer port s n at found in
        let (q, below, ne, owner) = find_in-Owner hops n.port t there (omega arith) in
        (q, find_ask hops port s n q at d below ne (Owner-fits q owner), ne, owner)
  ]

scan_fingers-none :
    (self hash : ℕ) (fingers : List Entry)
    → ((j : ℕ) (e : Entry)
        → get_elem? fingers j ≡ some e
        → precedes self hash e.node_info.key ≡ false)
    → (i : ℕ) → scan_fingers i self hash fingers ≡ none
unfolding scan_fingers
scan_fingers-none self hash fingers h zero = refl
scan_fingers-none self hash fingers h (suc i) = elim (Option-cases (get_elem? fingers i)) [
  | inl out ↦ ground (arith, out)
  | inr (x, at) ↦ ground (arith, at, h i x at, scan_fingers-none self hash fingers h i)
]

-- Where the ring wraps between a node and its successor, and no finger passes the test, the node
-- answers its own port for the successor's own position, although the successor stands there.
pub find_closest_port-wrapped :
    (find : ℕ → ℕ → Option ℕ) (s : State)
    → s.postnode.key < s.local_node.key
    → s.local_node.key < total_keys
    → ((j : ℕ) (e : Entry)
        → get_elem? s.fin_tb j ≡ some e
        → precedes s.local_node.key s.postnode.key e.node_info.key ≡ false)
    → find_closest_port find s s.postnode.key ≡ s.local_node.port
unfolding find_closest_port decide_port decide_finger is_after is_wrapped
find_closest_port-wrapped find s wraps fits far =
    ground (arith, scan_fingers-none s.local_node.key s.postnode.key s.fin_tb far finger_num)
