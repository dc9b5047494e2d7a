-- ===== src/CachingProxy/Cache/Insertion.antt =====
-- `put` (`Web Proxy_C/Proxy with Cache/cache.cpp`) on a state that stands for a list of entries.
use mathlib.Core.Logic.{ite, if_pos, if_neg}
use tiny_projects_and_tools.Base.{
  ℕ, ◌+◌, ◌%◌, ◌≤◌, ◌<◌, ◌≡◌, ◌≢◌, refl, ap, subst, sym, ◌∙◌, [], ◌∷◌, ◌++◌, length, length-map,
  none, some, All, Option-cases, inl, inr, arith,
}
use tiny_projects_and_tools.CachingProxy.Instance.{Instance, size_mod, weight, total_size}
use tiny_projects_and_tools.CachingProxy.Cache.{
  Cache, set_iterator, update, erase_map, push_back, shrink, insert, put_new, put,
}
use tiny_projects_and_tools.CachingProxy.Cache.Entries.{
  Entries, total, find, remove, touch, evict, evict_cong, find-append, All-remove, remove_absent,
  find-remove,
}
use tiny_projects_and_tools.CachingProxy.Cache.View.{
  node, Sound, Represents, push-nodes, push-Distinct, push-fresh, push-Sound, push-total, own_size,
}
use tiny_projects_and_tools.CachingProxy.Cache.Calls.{erased, erase_entry-erased, erased-Represents}
use tiny_projects_and_tools.CachingProxy.Cache.Eviction.{shrink-evict}

set_iterator-weight :
    (heap : ℕ → Instance) (a id b : ℕ) → weight (set_iterator heap a id b) ≡ weight (heap b)
unfolding set_iterator weight
set_iterator-weight heap a id b = ground arith

module _ {K : Type 0} (dec : Discrete K) where
  others_of :
      (k : K) (a : ℕ) (es : Entries K)
      → find dec k es ≡ none
      → All (λ (e : K × ℕ). e.1 ≢ a) es
      → All (λ (e : K × ℕ). (e.0 ≢ k) × (e.1 ≢ a)) es
  unfolding find
  others_of k a [] h n = tt
  others_of k a (e ∷ es) h n = elim (dec k e.0) [
    | yes p ↦ absurd (ground arith)
    | no p ↦ ((λ q. p (sym q), n.0), others_of k a es (ground arith) n.1)
  ]

  -- The state with a new entry at the end, before the evictions.
  abbrev added : Cache K → K → ℕ → Cache K
  added c k a = record (push_back dec (record c { map = update dec c.map k (some a) }) k a) {
    size = (c.size + weight (c.heap a)) % size_mod;
  }

  module _ (c : Cache K) (es : Entries K) (r : Represents dec c es) (k : K) (a : ℕ)
      (missing : find dec k es ≡ none) (new : All (λ (e : K × ℕ). e.1 ≢ a) es)
      (sound : Sound c.heap (k, a)) (fits : total c.heap es + weight (c.heap a) < size_mod) where
    others : All (λ (e : K × ℕ). (e.0 ≢ k) × (e.1 ≢ a)) es
    others = others_of k a es missing new

    keys_added : (j : K) → update dec c.map k (some a) j ≡ find dec j (es ++ (k, a) ∷ [])
    unfolding update
    keys_added j = elim (dec j k) [
      | yes p ↦
          if_pos (dec j k) p _ _
          ∙ sym (find-append dec k j a es ∙ rw (absent p) (if_pos (dec j k) p _ _))
      | no p ↦ if_neg (dec j k) p _ _ ∙ r.keys j ∙ sym (find-append dec k j a es ∙ unmoved p)
    ]
      where
        unmoved :
            ¬ (j ≡ k)
            → elim (find dec j es) [ none ↦ ite (dec j k) (some a) none | some b ↦ some b ]
              ≡ find dec j es
        unmoved p = elim (Option-cases (find dec j es)) [
          | inl e ↦ rw e (if_neg (dec j k) p _ _)
          | inr (b, e) ↦ rw e
        ]

        absent : j ≡ k → find dec j es ≡ none
        absent p = ap (λ l. find dec l es) p ∙ missing

    added-Represents : Represents dec (added c k a) (es ++ (k, a) ∷ [])
    unfolding push_back
    added-Represents = record {
      keys = keys_added;
      nodes = ap (λ l. l ++ (c.next, k) ∷ []) r.nodes ∙ push-nodes c.heap k a c.next es others;
      distinct = push-Distinct c.heap k a c.next es others r.distinct r.fresh;
      fresh = push-fresh c.heap k a c.next es others r.fresh;
      sound = push-Sound c.heap k a c.next es others r.sound sound;
      size = omega (arith, r.size, fits, push-total c.heap k a c.next es others);
      small = omega arith;
    }

    put_new-shrink : put_new dec c k a ≡ shrink dec (length (added c k a).list) (added c k a)
    unfolding put_new shrink push_back
    put_new-shrink = rw (inserted, found_there, size_there)
      where
        inserted : insert dec c.map k a ≡ update dec c.map k (some a)
        inserted = unfold insert in rw (r.keys k ∙ missing, insert)

        found_there : update dec c.map k (some a) k ≡ some a
        found_there = unfold update in if_pos (dec k k) refl _ _

        size_there :
            total_size ((push_back dec (record c { map = update dec c.map k (some a) }) k a).heap a)
            ≡ some (weight (c.heap a))
        size_there = unfold push_back in own_size c.heap k a c.next ∙ sound

    pub put_new-evict :
        (c' : Cache K) × (put_new dec c k a ≡ some c')
        × Represents dec c' (evict c.heap c.max_size (es ++ (k, a) ∷ []))
        × (c'.max_size ≡ c.max_size)
        × (c'.size ≤ c.max_size)
    unfolding push_back
    put_new-evict =
        let (c', done, r', same, le) =
          shrink-evict dec (es ++ (k, a) ∷ []) (length (added c k a).list) (added c k a)
            added-Represents long_enough in
        (
          c',
          put_new-shrink ∙ done,
          subst (Represents dec c')
              (evict_cong c.heap (set_iterator c.heap a c.next)
                (set_iterator-weight c.heap a c.next) c.max_size (es ++ (k, a) ∷ []))
              r',
          same,
          le,
        )
      where
        long_enough : length (es ++ (k, a) ∷ []) ≤ length (added c k a).list
        long_enough = omega (
          arith,
          ap length added-Represents.nodes,
          length-map (es ++ (k, a) ∷ []) (node (added c k a).heap),
        )

  erase_map-erased :
      (c : Cache K) (es : Entries K)
      → Represents dec c es
      → (k : K) (a : ℕ) → find dec k es ≡ some a
      → erase_map dec c k a ≡ some (erased dec c es k a)
  unfolding erase_map
  erase_map-erased c es r k a found = erase_entry-erased dec c es r k a found

  -- On a state that stands for entries, if the sizes do not overflow, put of an instance that no
  -- entry has, and whose assertion holds, does not fail and refines the abstract cache: the key
  -- becomes the one used last, the entries used longest ago are dropped as far as needed, and
  -- what is left fits.
  pub put-evict :
      (c : Cache K) (es : Entries K) (k : K) (a : ℕ)
      → Represents dec c es
      → All (λ (e : K × ℕ). e.1 ≢ a) es
      → Sound c.heap (k, a)
      → total c.heap (remove dec k es) + weight (c.heap a) < size_mod
      → (c' : Cache K) × (put dec c k a ≡ some c')
        × Represents dec c' (evict c.heap c.max_size (touch dec k a es))
        × (c'.max_size ≡ c.max_size)
        × (c'.size ≤ c.max_size)
  unfolding put
  put-evict c es k a r new sound fits = elim (Option-cases (find dec k es)) [
    | inl missing ↦
        let same = remove_absent dec k es missing in
        let result =
          put_new-evict c es r k a missing new sound
            (subst (λ l. total c.heap l + weight (c.heap a) < size_mod) same fits) in
        rw (r.keys k ∙ missing, put)
          (subst
            (λ l.
              (c' : Cache K) × (put_new dec c k a ≡ some c')
              × Represents dec c' (evict c.heap c.max_size (l ++ (k, a) ∷ []))
              × (c'.max_size ≡ c.max_size)
              × (c'.size ≤ c.max_size))
            (sym same) result)
    | inr (old, found) ↦
        let gone : find dec k (remove dec k es) ≡ none =
          find-remove dec c.heap k k es r.distinct ∙ if_pos (dec k k) refl _ _ in
        let result =
          put_new-evict (erased dec c es k old) (remove dec k es)
            (erased-Represents dec c es r k old found) k a gone
            (All-remove dec (λ (e : K × ℕ). e.1 ≢ a) k es new) sound fits in
        rw (r.keys k ∙ found, erase_map-erased c es r k old found, put) result
  ]
