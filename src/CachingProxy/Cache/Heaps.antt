-- ===== src/CachingProxy/Cache/Heaps.antt =====
-- A heap of the cache (`Web Proxy_C/Proxy with Cache/cache.cpp`) in which an instance that no entry
-- has is another one.
use tiny_projects_and_tools.Base.{
  ℕ, ◌<◌, ◌≡◌, ◌≢◌, refl, sym, ap, ap₂, subst, ◌∙◌, some, [], ◌∷◌, map, All, arith,
}
use tiny_projects_and_tools.CachingProxy.Instance.{Instance, weight, total_size}
use tiny_projects_and_tools.CachingProxy.Cache.{Cache}
use tiny_projects_and_tools.CachingProxy.Cache.Entries.{Entries, Distinct, total}
use tiny_projects_and_tools.CachingProxy.Cache.View.{Represents, node}

module _ {K : Type 0} (heap heap' : ℕ → Instance) where
  abbrev pub Agrees : Entries K → Type 0
  Agrees es = All (λ (e : K × ℕ). heap' e.1 ≡ heap e.1) es

  map-Agrees : (es : Entries K) → Agrees es → map (node heap) es ≡ map (node heap') es
  map-Agrees [] h = refl
  map-Agrees (e ∷ es) h =
      ap₂ ◌∷◌ (ap (λ (i : Instance). (i.ite, e.0)) (sym h.0)) (map-Agrees es h.1)

  All-Agrees :
      (P : Instance → K × ℕ → Type 0) (es : Entries K)
      → Agrees es
      → All (λ e. P (heap e.1) e) es
      → All (λ e. P (heap' e.1) e) es
  All-Agrees P [] h p = tt
  All-Agrees P (e ∷ es) h p = (subst (λ i. P i e) (sym h.0) p.0, All-Agrees P es h.1 p.1)

  Distinct-Agrees : (es : Entries K) → Agrees es → Distinct heap es → Distinct heap' es
  Distinct-Agrees [] h d = tt
  Distinct-Agrees (e ∷ es) h d = (
    subst (λ i. All (λ f. (e.0 ≢ f.0) × (e.1 ≢ f.1) × (i.ite ≢ (heap' f.1).ite)) es) (sym h.0)
        (All-Agrees (λ i f. (e.0 ≢ f.0) × (e.1 ≢ f.1) × ((heap e.1).ite ≢ i.ite)) es h.1 d.0),
    Distinct-Agrees es h.1 d.1,
  )

  pub total-Agrees : (es : Entries K) → Agrees es → total heap' es ≡ total heap es
  unfolding total
  total-Agrees [] h = refl
  total-Agrees (e ∷ es) h = omega (arith, total-Agrees es h.1, ap weight h.0)

pub Represents-Agrees :
    {K : Type 0} (dec : Discrete K) (c : Cache K) (heap' : ℕ → Instance) (es : Entries K)
    → Agrees c.heap heap' es
    → Represents dec c es
    → Represents dec (record c { heap = heap' }) es
Represents-Agrees {K} dec c heap' es h r = record {
  keys = r.keys;
  nodes = r.nodes ∙ map-Agrees c.heap heap' es h;
  distinct = Distinct-Agrees c.heap heap' es h r.distinct;
  fresh = All-Agrees c.heap heap' (λ i e. i.ite < c.next) es h r.fresh;
  sound = All-Agrees c.heap heap' (λ i e. total_size i ≡ some (weight i)) es h r.sound;
  size = r.size ∙ sym (total-Agrees c.heap heap' es h);
  small = r.small;
}
