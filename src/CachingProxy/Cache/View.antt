-- ===== src/CachingProxy/Cache/View.antt =====
-- How the state of `Cache` (`Web Proxy_C/Proxy with Cache/cache.cpp`) stands for a list of entries,
-- and what taking an entry out and putting one at the end do to it.
use mathlib.Core.Logic.{if_pos, if_neg}
use tiny_projects_and_tools.Base.{
  ℕ, ◌+◌, ◌<◌, ◌≡◌, ◌≢◌, ap, ap₂, sym, ◌∙◌, [], ◌∷◌, ◌++◌, map, some, All, All-append, All-imp,
  arith,
}
use tiny_projects_and_tools.CachingProxy.Instance.{Instance, size_mod, weight, total_size}
use tiny_projects_and_tools.CachingProxy.Cache.{Cache, erase_node, set_iterator}
use tiny_projects_and_tools.CachingProxy.Cache.Entries.{
  Entries, Apart, Distinct, total, find, remove, All-find,
}

abbrev pub node : {K : Type 0} → (ℕ → Instance) → K × ℕ → ℕ × K
node heap e = ((heap e.1).ite, e.0)

abbrev pub Sound : {K : Type 0} → (ℕ → Instance) → K × ℕ → Type 0
Sound heap e = total_size (heap e.1) ≡ some (weight (heap e.1))

pub record Represents {K : Type 0} (dec : Discrete K) (c : Cache K) (es : Entries K) : Type 0 where
  pub keys : (k : K) → c.map k ≡ find dec k es
  pub nodes : c.list ≡ map (node c.heap) es
  pub distinct : Distinct c.heap es
  pub fresh : All (λ (e : K × ℕ). (c.heap e.1).ite < c.next) es
  pub sound : All (Sound c.heap) es
  pub size : c.size ≡ total c.heap es
  pub small : c.size < size_mod

module _ {K : Type 0} (dec : Discrete K) (heap : ℕ → Instance) (k : K) (a : ℕ) where
  -- The list node of an entry is found, since no other entry has its number.
  pub erase_node-remove :
      (es : Entries K)
      → Distinct heap es
      → find dec k es ≡ some a
      → erase_node (heap a).ite (map (node heap) es) ≡ some (map (node heap) (remove dec k es))
  unfolding erase_node find remove
  erase_node-remove [] h e = cc
  erase_node-remove (f ∷ es) h e = elim (dec k f.0) [
    | yes p ↦ ground arith
    | no p ↦
        let later : find dec k es ≡ some a = ground arith in
        let apart = All-find dec (Apart heap f) k a es h.0 later in
        ground (arith, apart.2, erase_node-remove es h.1 later)
  ]

  -- What is left shares nothing with the entry that was taken out.
  pub remove-apart :
      (es : Entries K)
      → Distinct heap es
      → find dec k es ≡ some a
      → All (λ f. (f.0 ≢ k) × (f.1 ≢ a)) (remove dec k es)
  unfolding find remove
  remove-apart [] h e = cc
  remove-apart (f ∷ es) h e = elim (dec k f.0) [
    | yes p ↦
        let r : f.1 ≡ a = ground arith in
        rw (if_pos _ p) (
          All-imp (Apart heap f) _ es (λ g ap. (λ q. ap.0 (sym p ∙ sym q), λ q. ap.1 (r ∙ sym q)))
            h.0)
    | no p ↦
        let later : find dec k es ≡ some a = ground arith in
        let apart = All-find dec (Apart heap f) k a es h.0 later in
        rw (if_neg _ p) ((apart.0, apart.1), remove-apart es h.1 later)
  ]

module _ {K : Type 0} (heap : ℕ → Instance) (k : K) (a next : ℕ) where
  abbrev heap' : ℕ → Instance
  heap' = set_iterator heap a next

  abbrev pub Other : K × ℕ → Type 0
  Other e = (e.0 ≢ k) × (e.1 ≢ a)

  other_same : (b : ℕ) → b ≢ a → heap' b ≡ heap b
  unfolding set_iterator
  other_same b h = ground arith

  pub own : (heap' a).ite ≡ next
  unfolding set_iterator
  own = ground arith

  pub own_weight : weight (heap' a) ≡ weight (heap a)
  unfolding set_iterator weight
  own_weight = ground arith

  pub own_size : total_size (heap' a) ≡ total_size (heap a)
  unfolding set_iterator total_size
  own_size = ground arith

  pub push-nodes :
      (es : Entries K)
      → All Other es
      → map (node heap) es ++ (next, k) ∷ [] ≡ map (node heap') (es ++ (k, a) ∷ [])
  push-nodes [] h = ap (λ i. (i, k) ∷ []) (sym own)
  push-nodes (e ∷ es) h =
      ap₂ ◌∷◌ (ap (λ i. (i.ite, e.0)) (sym (other_same e.1 h.0.1))) (push-nodes es h.1)

  push-Apart :
      (e : K × ℕ)
      → Other e
      → (es : Entries K) → All Other es
      → All (Apart heap e) es
      → All (Apart heap' e) es
  push-Apart e o [] h p = tt
  push-Apart e o (f ∷ es) h p =
      let same_e = other_same e.1 o.1 in
      let same_f = other_same f.1 h.0.1 in
      (
        (p.0.0, p.0.1, λ q. p.0.2 (ap (λ i. i.ite) (sym same_e) ∙ q ∙ ap (λ i. i.ite) same_f)),
        push-Apart e o es h.1 p.1,
      )

  pub push-Distinct :
      (es : Entries K)
      → All Other es
      → Distinct heap es
      → All (λ (e : K × ℕ). (heap e.1).ite < next) es
      → Distinct heap' (es ++ (k, a) ∷ [])
  push-Distinct [] h d f = (tt, tt)
  push-Distinct (e ∷ es) h d f = (
    All-append (Apart heap' e) es ((k, a) ∷ []) (push-Apart e h.0 es h.1 d.0) (
      (
        h.0.0,
        h.0.1,
        λ q.
            absurd
              (omega (arith, ap (λ (i : Instance). i.ite) (other_same e.1 h.0.1), own, f.0, q)),
      ),
      tt,
    ),
    push-Distinct es h.1 d.1 f.1,
  )

  pub push-fresh :
      (es : Entries K)
      → All Other es
      → All (λ (e : K × ℕ). (heap e.1).ite < next) es
      → All (λ (e : K × ℕ). (heap' e.1).ite < next + 1) (es ++ (k, a) ∷ [])
  push-fresh [] h f = (rw own (omega arith), tt)
  push-fresh (e ∷ es) h f = (rw (other_same e.1 h.0.1) (omega (arith, f.0)), push-fresh es h.1 f.1)

  pub push-Sound :
      (es : Entries K)
      → All Other es
      → All (Sound heap) es
      → Sound heap (k, a)
      → All (Sound heap') (es ++ (k, a) ∷ [])
  push-Sound [] h s own_s = (own_size ∙ own_s ∙ ap some (sym own_weight), tt)
  push-Sound (e ∷ es) h s own_s = (rw (other_same e.1 h.0.1) s.0, push-Sound es h.1 s.1 own_s)

  pub push-total :
      (es : Entries K)
      → All Other es
      → total heap' (es ++ (k, a) ∷ []) ≡ total heap es + weight (heap a)
  unfolding total
  push-total [] h = omega (arith, own_weight)
  push-total (e ∷ es) h = omega (arith, push-total es h.1, ap weight (other_same e.1 h.0.1))
