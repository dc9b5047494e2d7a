-- ===== src/CachingProxy/Cache/Eviction.antt =====
-- `put` (`Web Proxy_C/Proxy with Cache/cache.cpp`) and its loop of evictions.
use mathlib.Core.List.{head?}
use mathlib.Core.Logic.{if_pos}
use tiny_projects_and_tools.Base.{
  ℕ, zero, suc, ◌≤◌, ◌<◌, ◌≡◌, refl, ap, ap₂, subst, sym, ◌∙◌, false, [], ◌∷◌, length, some, leb,
  leb→le, ◌>>=◌, Bool-cases, inl, inr, arith,
}
use tiny_projects_and_tools.CachingProxy.Instance.{Instance}
use tiny_projects_and_tools.CachingProxy.Cache.{Cache, erase_entry, erase_list, erase_begin, shrink}
use tiny_projects_and_tools.CachingProxy.Cache.Entries.{
  Entries, total, find, remove, evict, evict_fits, evict_over,
}
use tiny_projects_and_tools.CachingProxy.Cache.View.{node, Represents}
use tiny_projects_and_tools.CachingProxy.Cache.Calls.{erased, erase_entry-erased, erased-Represents}

module _ {K : Type 0} (dec : Discrete K) where
  find_first : (e : K × ℕ) (es : Entries K) → find dec e.0 (e ∷ es) ≡ some e.1
  unfolding find
  find_first e es = if_pos (dec e.0 e.0) refl _ _

  remove_first : (e : K × ℕ) (es : Entries K) → remove dec e.0 (e ∷ es) ≡ es
  unfolding remove
  remove_first e es = if_pos (dec e.0 e.0) refl _ _

  erase_list-eq :
      (c : Cache K) (id : ℕ) (k : K) (a : ℕ)
      → c.map k ≡ some a
      → erase_list dec c (id, k) ≡ erase_entry dec c k a id
  unfolding erase_list
  erase_list-eq c id k a h = rw h

  -- One round: the entry in front is erased.
  erase_front :
      (c : Cache K) (e : K × ℕ) (es : Entries K)
      → Represents dec c (e ∷ es)
      → (c' : Cache K) × (erase_begin dec c ≡ some c')
        × Represents dec c' es
        × (c'.max_size ≡ c.max_size)
        × (c'.heap ≡ c.heap)
  erase_front c e es r = (erased dec c (e ∷ es) e.0 e.1, step, represents, refl, refl)
    where
      found : find dec e.0 (e ∷ es) ≡ some e.1
      found = find_first e es

      front : erase_begin dec c ≡ erase_list dec c (node c.heap e)
      front = unfold erase_begin in ap (λ l. head? l >>= λ n. erase_list dec c n) r.nodes

      step : erase_begin dec c ≡ some (erased dec c (e ∷ es) e.0 e.1)
      step =
          front
          ∙ erase_list-eq c (c.heap e.1).ite e.0 e.1 (r.keys e.0 ∙ found)
          ∙ erase_entry-erased dec c (e ∷ es) r e.0 e.1 found

      represents : Represents dec (erased dec c (e ∷ es) e.0 e.1) es
      represents =
          subst (Represents dec (erased dec c (e ∷ es) e.0 e.1)) (remove_first e es)
            (erased-Represents dec c (e ∷ es) r e.0 e.1 found)

  shrink_fits : (rounds : ℕ) (c : Cache K) → c.size ≤ c.max_size → shrink dec rounds c ≡ some c
  unfolding shrink
  shrink_fits zero c h = ground arith
  shrink_fits (suc rounds) c h = ground arith

  shrink_over :
      (rounds : ℕ) (c : Cache K) {c' : Cache K}
      → c.max_size < c.size
      → erase_begin dec c ≡ some c'
      → shrink dec (suc rounds) c ≡ shrink dec rounds c'
  unfolding shrink
  shrink_over rounds c h e =
      let t : leb c.size c.max_size ≡ false = ground arith in rw (t, e, shrink)

  -- The loop ends by its test, in as many rounds as there are entries.
  pub shrink-evict :
      (es : Entries K) (rounds : ℕ) (c : Cache K)
      → Represents dec c es
      → length es ≤ rounds
      → (c' : Cache K) × (shrink dec rounds c ≡ some c')
        × Represents dec c' (evict c.heap c.max_size es)
        × (c'.max_size ≡ c.max_size)
        × (c'.size ≤ c.max_size)
  shrink-evict [] rounds c r h =
      let le : c.size ≤ c.max_size = unfold total in omega (arith, r.size) in
      (c, shrink_fits rounds c le, unfold evict in r, refl, le)
  shrink-evict (e ∷ es) zero c r h = absurd (omega arith)
  shrink-evict (e ∷ es) (suc rounds) c r h = elim (Bool-cases (leb c.size c.max_size)) [
    | inl fits ↦
        let le : c.size ≤ c.max_size = leb→le _ _ fits in
        (
          c,
          shrink_fits (suc rounds) c le,
          subst (Represents dec c)
              (sym (evict_fits c.heap c.max_size (e ∷ es) (omega (arith, le, r.size)))) r,
          refl,
          le,
        )
    | inr over ↦
        let lt : c.max_size < c.size = ground arith in
        let (c1, step, r1, same_max, same_heap) = erase_front c e es r in
        let (c2, done, r2, same, le) = shrink-evict es rounds c1 r1 (omega arith) in
        (
          c2,
          shrink_over rounds c lt step ∙ done,
          subst (Represents dec c2)
              (ap₂ (λ (h : ℕ → Instance) m. evict h m es) same_heap same_max
                ∙ sym (evict_over c.heap c.max_size e es (omega (arith, r.size))))
              r2,
          same ∙ same_max,
          omega (arith, le, same_max),
        )
  ]
