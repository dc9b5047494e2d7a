-- ===== src/CachingProxy/Cache/Calls.antt =====
-- `erase`, `get` and the insertion of `put` (`Web Proxy_C/Proxy with Cache/cache.cpp`) on a state
-- that stands for a list of entries.
use mathlib.Core.Logic.{ite, if_pos, if_neg}
use tiny_projects_and_tools.Base.{
  ℕ, ◌+◌, ◌-◌, ◌%◌, ◌<◌, ◌≡◌, ◌≢◌, refl, ap, sym, ◌∙◌, map, none, some, All, Option-cases, inl, inr,
  arith,
}
use tiny_projects_and_tools.CachingProxy.Instance.{size_mod, weight}
use tiny_projects_and_tools.CachingProxy.Cache.{Cache, update, erase_entry, push_back, get_hit, get}
use tiny_projects_and_tools.CachingProxy.Cache.Entries.{
  Entries, find, remove, touch, All-remove, Distinct-remove, total-remove, All-find, find-remove,
  find-touch,
}
use tiny_projects_and_tools.CachingProxy.Cache.View.{
  node, Sound, Represents, erase_node-remove, remove-apart, push-nodes, push-Distinct, push-fresh,
  push-Sound, push-total,
}

module _ {K : Type 0} (dec : Discrete K) where
  -- The state without the entry of a key.
  abbrev pub erased : Cache K → Entries K → K → ℕ → Cache K
  erased c es k a = record c {
    size = (c.size + size_mod - weight (c.heap a)) % size_mod;
    list = map (node c.heap) (remove dec k es);
    map = update dec c.map k none;
  }

  module _ (c : Cache K) (es : Entries K) (r : Represents dec c es) (k : K) (a : ℕ)
      (found : find dec k es ≡ some a) where
    pub erase_entry-erased : erase_entry dec c k a (c.heap a).ite ≡ some (erased c es k a)
    unfolding erase_entry
    erase_entry-erased = rw (
      All-find dec (Sound c.heap) k a es r.sound found,
      r.nodes,
      erase_node-remove dec c.heap k a es r.distinct found,
    )

    pub erased-Represents : Represents dec (erased c es k a) (remove dec k es)
    unfolding update
    erased-Represents = record {
      keys = λ j. rw (find-remove dec c.heap k j es r.distinct, r.keys j) refl;
      nodes = refl;
      distinct = Distinct-remove dec c.heap k es r.distinct;
      fresh = All-remove dec (λ (e : K × ℕ). (c.heap e.1).ite < c.next) k es r.fresh;
      sound = All-remove dec (Sound c.heap) k es r.sound;
      size = omega (arith, r.size, r.small, total-remove dec c.heap k a es found);
      small = omega arith;
    }

    pub get_hit-touch :
        (c' : Cache K) × (get_hit dec c k a ≡ some (c', some a))
        × Represents dec c' (touch dec k a es)
        × (c'.max_size ≡ c.max_size)
    unfolding get_hit push_back
    get_hit-touch = (c', reads, represents, refl)
      where
        rest : Entries K
        rest = remove dec k es

        c' : Cache K
        c' = push_back dec (record c { list = map (node c.heap) rest }) k a

        others : All (λ f. (f.0 ≢ k) × (f.1 ≢ a)) rest
        others = remove-apart dec c.heap k a es r.distinct found

        new : All (λ (e : K × ℕ). (c.heap e.1).ite < c.next) rest
        new = All-remove dec (λ (e : K × ℕ). (c.heap e.1).ite < c.next) k es r.fresh

        keys_touched : (j : K) → c.map j ≡ ite (dec j k) (some a) (find dec j es)
        keys_touched j = elim (dec j k) [
          | yes p ↦ r.keys j ∙ ap (λ l. find dec l es) p ∙ found ∙ sym (if_pos (dec j k) p _ _)
          | no p ↦ rw (if_neg _ p) (r.keys j)
        ]

        reads : get_hit dec c k a ≡ some (c', some a)
        reads = rw (r.nodes, erase_node-remove dec c.heap k a es r.distinct found)

        represents : Represents dec c' (touch dec k a es)
        represents = record {
          keys = λ j. keys_touched j ∙ sym (find-touch dec c.heap k j a es r.distinct);
          nodes = push-nodes c.heap k a c.next rest others;
          distinct =
              push-Distinct c.heap k a c.next rest others
                (Distinct-remove dec c.heap k es r.distinct) new;
          fresh = push-fresh c.heap k a c.next rest others new;
          sound =
              push-Sound c.heap k a c.next rest others (All-remove dec (Sound c.heap) k es r.sound)
                (All-find dec (Sound c.heap) k a es r.sound found);
          size = omega (
            arith,
            r.size,
            push-total c.heap k a c.next rest others,
            total-remove dec c.heap k a es found,
          );
          small = r.small;
        }

  -- `get` on a state that stands for entries never fails. It returns what they hold under the key,
  -- and leaves the key as the one used last, or all as it was if the key is not there.
  pub get-touch :
      (c : Cache K) (es : Entries K) (k : K)
      → Represents dec c es
      → (c' : Cache K) × (get dec c k ≡ some (c', find dec k es))
        × Represents dec c' (elim (find dec k es) [ none ↦ es | some a ↦ touch dec k a es ])
        × (c'.max_size ≡ c.max_size)
  unfolding get
  get-touch c es k r = elim (Option-cases (find dec k es)) [
    | inl missing ↦ rw (missing, r.keys k ∙ missing, get) (c, refl, r, refl)
    | inr (a, found) ↦
        let (c', reads, represents, same) = get_hit-touch c es r k a found in
        rw (found, r.keys k ∙ found, get) (c', reads, represents, same)
  ]
