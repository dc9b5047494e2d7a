-- ===== src/Chord/Ring.antt =====
-- The tests of `findClosestPort` (`DHT_Chord/chord/chord.c`) as intervals on the ring of 2 ^ 32
-- positions.
use tiny_projects_and_tools.Base.{
  ℕ, zero, suc, ◌+◌, ◌-◌, ◌%◌, ◌≤◌, ◌<◌, ◌≡◌, ◌≢◌, ◌↔◌, ◌⊎◌, inl, inr, sym, ap, ◌∙◌,
  get_elem?-total, true, false, ◌||◌, List, none, some, length, get_elem?, arith, Bool-cases,
  Option-cases,
}
use tiny_projects_and_tools.Chord.State.{Node, Entry, State, total_keys}
use tiny_projects_and_tools.Chord.Lookup.{is_after, is_wrapped, precedes, scan_fingers}

-- How far clockwise it is from `a` to `b`.
unfoldable pub distance : ℕ → ℕ → ℕ
distance a b = (b + total_keys - a) % total_keys

-- `x` lies strictly between `a` and `b`, going clockwise from `a`.
abbrev pub Inside : ℕ → ℕ → ℕ → Type 0
Inside a b x = (0 < distance a x) × (distance a x < distance a b)

-- On the positions of the ring, the finger test holds exactly of those strictly between the node and
-- the key, going clockwise.
pub precedes_iff :
    (self hash key : ℕ)
    → self < total_keys
    → hash < total_keys
    → key < total_keys
    → (precedes self hash key ≡ true) ↔ Inside self hash key
unfolding precedes distance
precedes_iff self hash key hs hh hk = ground arith

-- On the positions of the ring, the two tests for the successor hold exactly of those behind the node
-- up to the successor, but for the successor's own position where the successor does not stand at a
-- higher number than the node.
pub responsible_iff :
    (s : State) (hash : ℕ)
    → s.local_node.key < total_keys
    → s.postnode.key < total_keys
    → hash < total_keys
    → ((is_after s hash || is_wrapped s hash) ≡ true) ↔ (
        (0 < distance s.local_node.key hash)
        × (distance s.local_node.key hash ≤ distance s.local_node.key s.postnode.key)
        × ((hash ≢ s.postnode.key) ⊎ (s.local_node.key < s.postnode.key)))
unfolding is_after is_wrapped distance
responsible_iff s hash hl hp hh = ground arith

-- A request that is passed on comes closer to its key.
pub distance_falls :
    (a b x : ℕ)
    → a < total_keys
    → b < total_keys
    → x < total_keys
    → Inside a b x
    → distance x b < distance a b
unfolding distance
distance_falls a b x ha hb hx h = omega arith

module _ (self hash i : ℕ) (fingers : List Entry) (x : Entry)
    (at : get_elem? fingers i ≡ some x) where
  scan_hit :
      precedes self hash x.node_info.key ≡ true
      → scan_fingers (suc i) self hash fingers ≡ some x.node_info
  unfolding scan_fingers
  scan_hit h = ground (arith, at)

  scan_miss :
      precedes self hash x.node_info.key ≡ false
      → scan_fingers (suc i) self hash fingers ≡ scan_fingers i self hash fingers
  unfolding scan_fingers
  scan_miss h = ground (arith, at)

scan_out :
    (self hash i : ℕ) (fingers : List Entry)
    → get_elem? fingers i ≡ none
    → scan_fingers (suc i) self hash fingers ≡ none
unfolding scan_fingers
scan_out self hash i fingers h = ground (arith, h)

-- A finger that the scan returns passes the test, and stands in the table.
pub scan_fingers_sound :
    (i self hash : ℕ) (fingers : List Entry) (n : Node)
    → scan_fingers i self hash fingers ≡ some n
    → (j : ℕ) × (e : Entry) × (get_elem? fingers j ≡ some e)
      × (e.node_info ≡ n)
      × (precedes self hash e.node_info.key ≡ true)
scan_fingers_sound zero self hash fingers n h = unfold scan_fingers in cc
scan_fingers_sound (suc i) self hash fingers n h = elim (Option-cases (get_elem? fingers i)) [
  | inl out ↦ absurd (cc (scan_out self hash i fingers out))
  | inr (x, at) ↦ elim (Bool-cases (precedes self hash x.node_info.key)) [
    | inl passes ↦ (i, x, at, cc (scan_hit self hash i fingers x at passes), passes)
    | inr fails ↦
        scan_fingers_sound i self hash fingers n
          (sym (scan_miss self hash i fingers x at fails) ∙ h)
  ]
]

-- Where the scan returns nothing, no finger below the index passes the test.
pub scan_fingers_complete :
    (i self hash : ℕ) (fingers : List Entry)
    → i ≤ length fingers
    → scan_fingers i self hash fingers ≡ none
    → (j : ℕ) (e : Entry) → j < i
    → get_elem? fingers j ≡ some e
    → precedes self hash e.node_info.key ≡ false
scan_fingers_complete zero self hash fingers l h j e lt at = absurd (omega arith)
scan_fingers_complete (suc i) self hash fingers l h j e lt at =
    let (x, there) = get_elem?-total fingers i (omega arith) in
    elim (Bool-cases (precedes self hash x.node_info.key)) [
      | inl passes ↦ absurd (cc (scan_hit self hash i fingers x there passes))
      | inr fails ↦
          let below = sym (scan_miss self hash i fingers x there fails) ∙ h in
          elim (last) [
            | inl before ↦
                scan_fingers_complete i self hash fingers (omega arith) below j e before at
            | inr here ↦
                let same : x ≡ e = cc (sym there ∙ ap (get_elem? fingers) (sym here) ∙ at) in
                ap (λ (z : Entry). precedes self hash z.node_info.key) (sym same) ∙ fails
          ]
    ]
  where
    last : (j < i) ⊎ (j ≡ i)
    last = omega arith
