-- ===== src/CachingProxy/Session/Caching.antt =====
-- What a session (`Web Proxy_C/Proxy with Cache/main.cpp`) stores in the cache, and finds there.
use mathlib.Core.Logic.{if_pos, if_neg}
use tiny_projects_and_tools.Base.{
  ℕ, ◌+◌, ◌≤◌, ◌<◌, ◌≡◌, ◌≢◌, refl, sym, ap, subst, ◌∙◌, if◌then◌else◌, List, [], ◌∷◌, ◌++◌, none,
  some, length, All, All-imp, ◌==◌, arith,
}
use tiny_projects_and_tools.CachingProxy.Header.{Header}
use tiny_projects_and_tools.CachingProxy.Instance.{
  Instance, size_mod, total_size, weight, IsSound-of,
}
use tiny_projects_and_tools.CachingProxy.Cache.{Cache}
use tiny_projects_and_tools.CachingProxy.Cache.Entries.{
  Entries, find, remove, total, touch, evict, find-append, find-remove, find-touch, All-remove,
}
use tiny_projects_and_tools.CachingProxy.Cache.View.{Represents, Sound}
use tiny_projects_and_tools.CachingProxy.Cache.Heaps.{Agrees, Represents-Agrees, total-Agrees}
use tiny_projects_and_tools.CachingProxy.Cache.Calls.{get-touch}
use tiny_projects_and_tools.CachingProxy.Cache.Insertion.{put-evict}
use tiny_projects_and_tools.CachingProxy.Cache.Contents.{put-Keeps, get-Keeps}
use tiny_projects_and_tools.CachingProxy.Session.World.{World, ok}
use tiny_projects_and_tools.CachingProxy.Session.Requests.{key_discrete, get_cached}
use tiny_projects_and_tools.CachingProxy.Session.Fetch.{after_put, put_cached}

-- The cache has the response of a header and a body under a key.
pub record Holds (c : Cache (List ℕ)) (key : List ℕ) (h : Header) (body : List ℕ) : Type 0 where
  pub entries : Entries (List ℕ)
  pub represents : Represents key_discrete c entries
  pub address : ℕ
  pub found : find key_discrete key entries ≡ some address
  pub same_header : (c.heap address).header ≡ h
  pub same_body : (c.heap address).body ≡ body

module _ {K : Type 0} (dec : Discrete K) (heap : ℕ → Instance) where
  -- The entry used last stays, if it fits at all.
  pub find-evict :
      (max : ℕ) (k : K) (a : ℕ) (es : Entries K)
      → weight (heap a) ≤ max
      → find dec k es ≡ none
      → find dec k (evict heap max (es ++ (k, a) ∷ [])) ≡ some a
  unfolding evict find total
  find-evict max k a [] f e = ground (arith, f, if_pos (dec k k) refl (some a) none)
  find-evict max k a (x ∷ es) f e = elim (dec k x.0) [
    | yes p ↦ absurd (cc (sym (unfold find in if_pos (dec k x.0) p _ _) ∙ e))
    | no p ↦
        let later : find dec k es ≡ none = sym (if_neg (dec k x.0) p _ _) ∙ e in
        ground (
          arith,
          find-evict max k a es f later,
          if_neg (dec k x.0) p (some x.1) (find dec k (es ++ (k, a) ∷ [])),
          find-append dec k k a es,
          later,
          if_pos (dec k k) refl (some a) none,
        )
  ]

module _ (w : World) (es : Entries (List ℕ)) (key : List ℕ) (h : Header) (body : List ℕ)
    (r : Represents key_discrete w.cache es) (new : All (λ (e : List ℕ × ℕ). e.1 ≢ w.address) es)
    (whole : h.body_size ≡ length body) where
  abbrev instance_of : Instance
  instance_of = record { header = h; body = body; ite = (w.cache.heap w.address).ite }

  abbrev written : Cache (List ℕ)
  written = record w.cache { heap = λ a. if a == w.address then instance_of else w.cache.heap a }

  other : (a : ℕ) → a ≢ w.address → written.heap a ≡ w.cache.heap a
  other a p = ground (arith, p)

  own : written.heap w.address ≡ instance_of
  own = ground arith

  agrees : Agrees w.cache.heap written.heap es
  agrees =
      All-imp _ (λ (e : List ℕ × ℕ). written.heap e.1 ≡ w.cache.heap e.1) es (λ e. other e.1) new

  written-Represents : Represents key_discrete written es
  written-Represents = Represents-Agrees key_discrete w.cache written.heap es agrees r

  module _
      (room : total w.cache.heap (remove key_discrete key es) + (length h.text + length body)
        < size_mod)
      (fits : length h.text + length body ≤ w.cache.max_size) where
    own_weight : weight (written.heap w.address) ≡ length h.text + length body
    own_weight = ap weight own ∙ unfold weight in omega (arith, whole, room)

    own-Sound : Sound written.heap (key, w.address)
    own-Sound =
        subst (λ i. total_size i ≡ some (weight i)) (sym own) (IsSound-of instance_of whole).agrees

    total_room :
        total written.heap (remove key_discrete key es) + weight (written.heap w.address) < size_mod
    total_room = omega (
      arith,
      own_weight,
      room,
      total-Agrees w.cache.heap written.heap (remove key_discrete key es)
          (All-remove key_discrete (λ e. written.heap e.1 ≡ w.cache.heap e.1) key es agrees),
    )

    removed : find key_discrete key (remove key_discrete key es) ≡ none
    removed =
        find-remove key_discrete w.cache.heap key key es r.distinct
        ∙ if_pos (key_discrete key key) refl none (find key_discrete key es)

    -- A response that is put in the cache is there, under its key.
    pub put_cached-Holds :
        (c : Cache (List ℕ)) × (put_cached key h body w
          ≡ (ok tt, record w { cache = c; address = w.address + 1 }))
        × Holds c key h body
    unfolding put_cached after_put
    put_cached-Holds =
        let (c, puts, represents, _, _) =
          put-evict key_discrete written es key w.address written-Represents new own-Sound
            total_room in
        let keeps = put-Keeps key_discrete written c key w.address puts w.address in
        (
          c,
          ap (after_put w) puts,
          record {
            entries = evict written.heap w.cache.max_size (touch key_discrete key w.address es);
            represents = represents;
            address = w.address;
            found =
                find-evict key_discrete written.heap w.cache.max_size key w.address
                  (remove key_discrete key es) (omega (arith, own_weight, fits)) removed;
            same_header = keeps.0 ∙ ap (λ (i : Instance). i.header) own;
            same_body = keeps.1 ∙ ap (λ (i : Instance). i.body) own;
          },
        )

-- A response that the cache has is found, and stays there.
pub get_cached-Holds :
    (w : World) (key : List ℕ) (h : Header) (body : List ℕ)
    → Holds w.cache key h body
    → (c : Cache (List ℕ)) × (i : Instance) × (get_cached key w
        ≡ (ok (some i), record w { cache = c }))
      × (i.header ≡ h)
      × (i.body ≡ body)
      × Holds c key h body
unfolding get_cached
get_cached-Holds w key h body p =
    let (c, gets, represents, _) = get-touch key_discrete w.cache p.entries key p.represents in
    let hit = gets ∙ ap (λ o. some (c, o)) p.found in
    let keeps = get-Keeps key_discrete w.cache c key (some p.address) hit p.address in
    (
      c,
      c.heap p.address,
      rw (hit, get_cached) refl,
      keeps.0 ∙ p.same_header,
      keeps.1 ∙ p.same_body,
      record {
        entries = touch key_discrete key p.address p.entries;
        represents =
            subst
              (λ o.
                Represents key_discrete c
                  (elim o [ none ↦ p.entries | some a ↦ touch key_discrete key a p.entries ]))
              p.found represents;
        address = p.address;
        found =
            find-touch key_discrete w.cache.heap key key p.address p.entries p.represents.distinct
            ∙ if_pos (key_discrete key key) refl (some p.address) (find key_discrete key p.entries);
        same_header = keeps.0 ∙ p.same_header;
        same_body = keeps.1 ∙ p.same_body;
      },
    )
