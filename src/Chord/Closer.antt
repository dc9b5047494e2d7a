-- ===== src/Chord/Closer.antt =====
-- How the neighbours of a node move: `chordNode` on `notify`, and `stabilize`, of
-- `DHT_Chord/chord/chord.c`.
use tiny_projects_and_tools.Base.{
  ℕ, ◌<◌, ◌≡◌, ◌↔◌, ◌⊎◌, inl, inr, sym, ap, subst, ◌∙◌, true, ◌||◌, List, Option, none, some, arith,
  Bool-cases,
}
use tiny_projects_and_tools.Base.Decimal.{is_positive}
use tiny_projects_and_tools.Chord.Hash.{Digest, translate}
use tiny_projects_and_tools.Chord.State.{Node, State, total_keys, node_of}
use tiny_projects_and_tools.Chord.Ring.{distance, Inside}
use tiny_projects_and_tools.Chord.Stabilize.{is_between, is_between_wrapped, adopt_post}
use tiny_projects_and_tools.Chord.Handler.{is_later, is_nearer, adopt_pre}

module _ (sha1 : List ℕ → Option Digest)
    (fits : (port : ℕ) → translate sha1 port < total_keys) where
  -- The tests of `notify` and of `stabilize` as an interval.
  nearer_iff :
      (s : State) (pre : Node) (hash : ℕ)
      → s.local_node.key < total_keys
      → pre.key < total_keys
      → hash < total_keys
      → ((is_later s pre hash || is_nearer s pre hash) ≡ true)
        ↔ Inside pre.key s.local_node.key hash
  unfolding is_later is_nearer distance
  nearer_iff s pre hash hl hp hh = ground arith

  between_iff :
      (s : State) (port hash : ℕ)
      → s.local_node.key < total_keys
      → s.postnode.key < total_keys
      → hash < total_keys
      → (port ≡ s.local_node.port → hash ≡ s.local_node.key)
      → ((is_between s hash || is_between_wrapped s port hash) ≡ true)
        ↔ Inside s.local_node.key s.postnode.key hash
  unfolding is_between is_between_wrapped distance
  between_iff s port hash hl hp hh own = ground arith

  -- The first node that notifies becomes the predecessor.
  pub adopt_pre-none :
      (s : State) (port : ℕ)
      → s.prenode ≡ none
      → adopt_pre sha1 s port ≡ record s { prenode = some (node_of sha1 port) }
  unfolding adopt_pre
  adopt_pre-none s port at = ground (arith, at)

  -- On `notify` of a port, a node that has a predecessor takes that port for it if and only if the
  -- port's position lies strictly between the predecessor and the node, going clockwise; else the
  -- state stays as it is. The positions have to fit the ring.
  pub adopt_pre-nearer :
      (s : State) (pre : Node) (port : ℕ)
      → s.prenode ≡ some pre
      → s.local_node.key < total_keys
      → pre.key < total_keys
      → (Inside pre.key s.local_node.key (translate sha1 port)
          × (adopt_pre sha1 s port ≡ record s { prenode = some (node_of sha1 port) }))
        ⊎ (¬ Inside pre.key s.local_node.key (translate sha1 port) × (adopt_pre sha1 s port ≡ s))
  unfolding adopt_pre
  adopt_pre-nearer s pre port at hl hp =
      let nearer = nearer_iff s pre (translate sha1 port) hl hp (fits port) in
      elim (Bool-cases
        (is_later s pre (translate sha1 port) || is_nearer s pre (translate sha1 port))) [
          | inl passes ↦ inl (nearer.0 passes, ground (arith, at, passes))
          | inr fails ↦ inr (λ h. absurd (cc (nearer.1 h)), ground (arith, at, fails))
        ]

  -- A positive port that the successor gives for its predecessor becomes the successor if and only
  -- if its position lies strictly between the node and the successor, going clockwise; else the state
  -- stays as it is. The node has to stand at its port's position.
  pub adopt_post-nearer :
      (s : State) (port : ℕ)
      → s.local_node ≡ node_of sha1 s.local_node.port
      → s.postnode.key < total_keys
      → is_positive port ≡ true
      → (Inside s.local_node.key s.postnode.key (translate sha1 port)
          × (adopt_post sha1 s port ≡ record s { postnode = node_of sha1 port }))
        ⊎ (¬ Inside s.local_node.key s.postnode.key (translate sha1 port)
            × (adopt_post sha1 s port ≡ s))
  unfolding adopt_post
  adopt_post-nearer s port own hp positive =
      let hl : s.local_node.key < total_keys =
        subst (λ k. k < total_keys) (sym (ap (λ n. n.key) own)) (fits s.local_node.port) in
      let between =
        between_iff s port (translate sha1 port) hl hp (fits port)
          (λ same. ap (translate sha1) same ∙ sym (ap (λ n. n.key) own)) in
      elim (Bool-cases
        (is_between s (translate sha1 port) || is_between_wrapped s port (translate sha1 port))) [
          | inl passes ↦ inl (between.0 passes, ground (arith, positive, passes))
          | inr fails ↦ inr (λ h. absurd (cc (between.1 h)), ground (arith, positive, fails))
        ]
