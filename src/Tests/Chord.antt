-- ===== src/Tests/Chord.antt =====
-- Rings of `DHT_Chord/chord/chord.c` at concrete inputs. In place of SHA-1 stands a digest of the
-- length of its text.
use tiny_projects_and_tools.Base.{
  ℕ, zero, suc, ◌%◌, ◌^◌, ◌≡◌, ◌≢◌, ◌≤◌, ◌<◌, ◌↔◌, ◌⊎◌, inl, inr, true, false, ◌||◌, List, [], ◌∷◌,
  Option, none, some, refl, length, arith, ascii, replicate, get_elem?, if◌then◌else◌, ◌==◌, subst,
  Bool-cases,
}
use tiny_projects_and_tools.Base.Decimal.{print_int}
use tiny_projects_and_tools.Base.CString.{to_unsigned, atoi}
use tiny_projects_and_tools.Chord.Hash.{Digest, fold_digest-lt, translate, hash_function}
use tiny_projects_and_tools.Chord.State.{Node, Entry, State, total_keys, node_of}
use tiny_projects_and_tools.Chord.Lookup.{precedes, is_after, is_wrapped, find_closest_port}
use tiny_projects_and_tools.Chord.Ring.{distance, Inside, precedes_iff, responsible_iff}
use tiny_projects_and_tools.Chord.Network.{
  Net, InRing, IsRing, Owner, find_in, find_in-Owner, find_closest_port-wrapped,
}
use tiny_projects_and_tools.Chord.Stabilize.{
  notify, stabilize, heart_beat, join, refused, adopt_post,
}
use tiny_projects_and_tools.Chord.Handler.{done, receive, chord_node, adopt_pre}
use tiny_projects_and_tools.Chord.Closer.{adopt_pre-nearer, adopt_post-nearer}
use tiny_projects_and_tools.Chord.Keys.{IsPlaced, rounds-IsPlaced}
use tiny_projects_and_tools.Chord.Keys.Messages.{chord_node-IsPlaced}
use tiny_projects_and_tools.Chord.Links.{
  AtHome, received, works, Links, Pairs, join-Links, join-Pairs,
}

abbrev digest : List ℕ → Option Digest
digest text =
    some (record { word0 = length text % 2 ^ 32; word1 = 0; word2 = 0; word3 = 0; word4 = 0 })

digest_fits : (port : ℕ) → translate digest port < total_keys
unfolding translate hash_function
digest_fits port = fold_digest-lt _ (record {
  fits0 = omega arith;
  fits1 = omega arith;
  fits2 = omega arith;
  fits3 = omega arith;
  fits4 = omega arith;
})

precedes_iff_example : (precedes 40 10 5 ≡ true) ↔ Inside 40 10 5
precedes_iff_example = precedes_iff 40 10 5 (omega arith) (omega arith) (omega arith)

-- The nodes on the ports 7, 77 and 777 stand at 11, 12 and 13.
abbrev node7 : Node
node7 = record { port = 7; key = 11 }

abbrev node77 : Node
node77 = record { port = 77; key = 12 }

abbrev node777 : Node
node777 = record { port = 777; key = 13 }

abbrev at_node : Node → Node → Option Node → State
at_node self post pre = record {
  local_node = self;
  fin_tb = replicate 32 (record { start = self.key; node_info = post });
  postnode = post;
  postnode2 = self;
  prenode = pre;
}

home7 : (post : Node) (pre : Option Node) → AtHome digest (at_node node7 post pre)
unfolding node_of translate print_int
home7 post pre = record { own = refl; is_port = omega arith }

home77 : (post : Node) (pre : Option Node) → AtHome digest (at_node node77 post pre)
unfolding node_of translate print_int
home77 post pre = record { own = refl; is_port = omega arith }

home777 : (post : Node) (pre : Option Node) → AtHome digest (at_node node777 post pre)
unfolding node_of translate print_int
home777 post pre = record { own = refl; is_port = omega arith }

join-Links_example :
    Links digest digest_fits
      (at_node node7 node777 none)
      (at_node node777 node7 (some node7))
      (at_node node77 node777 none)
join-Links_example =
    join-Links digest digest_fits (at_node node7 node777 none) (at_node node777 node7 (some node7))
      (at_node node77 node777 none) (home7 node777 none) (home777 node7 (some node7))
      (home77 node777 none) refl refl refl refl refl inside
  where
    inside : Inside 11 13 12
    inside =
        (precedes_iff 11 13 12 (omega arith) (omega arith) (omega arith)).0
          (unfold precedes in refl)

join-Pairs_example :
    Pairs digest digest_fits (at_node node7 node7 (some node7)) (at_node node77 node77 none)
join-Pairs_example =
    join-Pairs digest digest_fits (at_node node7 node7 (some node7)) (at_node node77 node77 none)
      (home7 node7 (some node7)) (home77 node77 none) refl

adopt_pre-nearer_example :
    (Inside 11 13 (translate digest 77)
      × (adopt_pre digest (at_node node777 node7 (some node7)) 77
          ≡ at_node node777 node7 (some (node_of digest 77))))
    ⊎ (¬ Inside 11 13 (translate digest 77)
        × (adopt_pre digest (at_node node777 node7 (some node7)) 77
            ≡ at_node node777 node7 (some node7)))
adopt_pre-nearer_example =
    adopt_pre-nearer digest digest_fits (at_node node777 node7 (some node7)) node7 77 refl
      (omega arith) (omega arith)

adopt_post-nearer_example :
    (Inside 11 13 (translate digest 77)
      × (adopt_post digest (at_node node7 node777 none) 77
          ≡ record (at_node node7 node777 none) { postnode = node_of digest 77 }))
    ⊎ (¬ Inside 11 13 (translate digest 77)
        × (adopt_post digest (at_node node7 node777 none) 77 ≡ at_node node7 node777 none))
adopt_post-nearer_example =
    adopt_post-nearer digest digest_fits (at_node node7 node777 none) 77 ((home7 node777 none).own)
      (omega arith) refl

responsible_iff_example :
    ((is_after (at_node node777 node7 none) 5 || is_wrapped (at_node node777 node7 none) 5) ≡ true)
    ↔ ((0 < distance 13 5) × (distance 13 5 ≤ distance 13 11) × (◌≢◌ {A = ℕ} 5 11 ⊎ (13 < 11)))
responsible_iff_example =
    responsible_iff (at_node node777 node7 none) 5 (omega arith) (omega arith) (omega arith)

placed777 : IsPlaced digest (at_node node777 node7 (some node7))
unfolding translate print_int
placed777 = record { local = refl; post = refl; post2 = refl; pre = refl }

abbrev notified : State
notified = at_node node777 node7 (some node77)

chord_node-IsPlaced_example : IsPlaced digest notified
chord_node-IsPlaced_example =
    chord_node-IsPlaced digest receive
      (received (ascii "notify 77") ∷ received (ascii "stable 7") ∷ [])
      (at_node node777 node7 (some node7)) notified (ascii "77" ∷ []) placed777 runs
  where
    runs :
        chord_node digest receive
          (received (ascii "notify 77") ∷ received (ascii "stable 7") ∷ [])
          (at_node node777 node7 (some node7))
        ≡ done (notified, ascii "77" ∷ [])
    runs = unfold chord_node translate print_int to_unsigned atoi in refl

rounds-IsPlaced_example :
    IsPlaced digest ((notify digest (at_node node777 node7 (some node7)) (works [])).0)
    × IsPlaced digest ((stabilize digest (at_node node777 node7 (some node7)) (works [])).0)
    × IsPlaced digest ((heart_beat digest (at_node node777 node7 (some node7)) refused).0)
    × IsPlaced digest ((join digest (at_node node777 node7 (some node7)) 7 refused).0)
rounds-IsPlaced_example =
    rounds-IsPlaced digest (at_node node777 node7 (some node7)) (works []) refused 7 placed777

-- A ring of the nodes on the ports 7 and 777.
abbrev net : Net
net port =
    if port == 7
    then some (at_node node7 node777 (some node777))
    else if port == 777
    then some (at_node node777 node7 (some node7))
    else none

replicate_same : (n j : ℕ) (x e : Entry) → get_elem? (replicate n x) j ≡ some e → x ≡ e
replicate_same zero j x e h = cc
replicate_same (suc n) zero x e h = cc
replicate_same (suc n) (suc j) x e h = replicate_same n j x e h

knows :
    (self post : Node) (pre : Option Node) (t : State)
    → net post.port ≡ some t
    → t.local_node.key ≡ post.key
    → (j : ℕ) (e : Entry) → get_elem? (at_node self post pre).fin_tb j ≡ some e
    → (t : State) × (net e.node_info.port ≡ some t) × (t.local_node.key ≡ e.node_info.key)
knows self post pre t there key j e at =
    subst
      (λ e. (t : State) × (net e.node_info.port ≡ some t) × (t.local_node.key ≡ e.node_info.key))
      (replicate_same 32 j (record { start = self.key; node_info = post }) e at) (t, there, key)

in_ring7 : InRing net (at_node node7 node777 (some node777))
in_ring7 = record {
  fits = omega arith;
  fits_post = omega arith;
  port = omega arith;
  port_post = omega arith;
  port_fits = omega arith;
  port_post_fits = omega arith;
  fingers = refl;
  first = record { start = 11; node_info = node777 };
  first_at = refl;
  first_post = refl;
  known = knows node7 node777 (some node777) (at_node node777 node7 (some node7)) refl refl;
}

in_ring777 : InRing net (at_node node777 node7 (some node7))
in_ring777 = record {
  fits = omega arith;
  fits_post = omega arith;
  port = omega arith;
  port_post = omega arith;
  port_fits = omega arith;
  port_post_fits = omega arith;
  fingers = refl;
  first = record { start = 13; node_info = node7 };
  first_at = refl;
  first_post = refl;
  known = knows node777 node7 (some node7) (at_node node7 node777 (some node777)) refl refl;
}

net-cases :
    (port : ℕ) (s : State)
    → net port ≡ some s
    → (at_node node7 node777 (some node777) ≡ s) ⊎ (at_node node777 node7 (some node7) ≡ s)
net-cases port s h = elim (Bool-cases (port == 7)) [
  | inl is7 ↦ inl (ground (arith, is7))
  | inr not7 ↦ elim (Bool-cases (port == 777)) [
    | inl is777 ↦ inr (ground (arith, not7, is777))
    | inr not777 ↦ absurd (ground (arith, not7, not777))
  ]
]

net-IsRing : IsRing net
net-IsRing port s h = elim (net-cases port s h) [
  | inl e ↦ subst (InRing net) e in_ring7
  | inr e ↦ subst (InRing net) e in_ring777
]

net_hits :
    (p : ℕ) (t : State)
    → net p ≡ some t
    → (◌≢◌ {A = ℕ} 12 t.postnode.key) ⊎ (t.local_node.key ≤ t.postnode.key)
net_hits p t h = elim (net-cases p t h) [
  | inl e ↦
      subst (λ (t : State). (◌≢◌ {A = ℕ} 12 t.postnode.key) ⊎ (t.local_node.key ≤ t.postnode.key)) e
        (inl (omega arith))
  | inr e ↦
      subst (λ (t : State). (◌≢◌ {A = ℕ} 12 t.postnode.key) ⊎ (t.local_node.key ≤ t.postnode.key)) e
        (inl (omega arith))
]

find_in-Owner_example : (q : ℕ) × (find_in net 2 7 12 ≡ some q) × (q ≢ 0) × Owner net 12 q
find_in-Owner_example =
    find_in-Owner net net-IsRing 12 (omega arith) net_hits 2 7
      (at_node node7 node777 (some node777)) refl (unfold distance in omega arith)

-- The node on port 777 answers 777 for the position of the node on port 7.
find_closest_port-wrapped_example :
    find_closest_port (λ port hash. none) (at_node node777 node7 (some node7)) 11 ≡ 777
find_closest_port-wrapped_example =
    find_closest_port-wrapped (λ port hash. none) (at_node node777 node7 (some node7)) (omega arith)
      (omega arith)
      (λ j e at.
        subst (λ (e : Entry). precedes 13 11 e.node_info.key ≡ false)
          (replicate_same 32 j (record { start = 13; node_info = node7 }) e at)
          (unfold precedes in refl))
