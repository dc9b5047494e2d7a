-- ===== src/CachingProxy/Cache/Entries.antt =====
-- The abstract cache: keys with the addresses of their instances, the one used longest ago first.
use mathlib.Core.Logic.{ite, if_pos, if_neg}
use tiny_projects_and_tools.Base.{
  ℕ, ◌+◌, ◌≤◌, ◌<◌, ◌≡◌, ◌≢◌, refl, ap, subst, sym, ◌∙◌, List, [], ◌∷◌, ◌++◌, Option, none, some,
  All, All-append, All-imp, leb, if◌then◌else◌, arith,
}
use tiny_projects_and_tools.CachingProxy.Instance.{Instance, weight}

abbrev pub Entries : Type 0 → Type 0
Entries K = List (K × ℕ)

-- Two entries share neither key nor instance nor list node.
abbrev pub Apart : {K : Type 0} → (ℕ → Instance) → K × ℕ → K × ℕ → Type 0
Apart heap e f = (e.0 ≢ f.0) × (e.1 ≢ f.1) × ((heap e.1).ite ≢ (heap f.1).ite)

abbrev pub Distinct : {K : Type 0} → (ℕ → Instance) → List (K × ℕ) → Type 0
Distinct heap [] = Unit {0}
Distinct heap (e ∷ es) = All (Apart heap e) es × Distinct heap es

unfoldable pub total : {K : Type 0} → (ℕ → Instance) → List (K × ℕ) → ℕ
total heap [] = 0
total heap (e ∷ es) = weight (heap e.1) + total heap es

module _ {K : Type 0} (dec : Discrete K) where
  unfoldable pub find : K → List (K × ℕ) → Option ℕ
  find k [] = none
  find k (e ∷ es) = ite (dec k e.0) (some e.1) (find k es)

  unfoldable pub remove : K → List (K × ℕ) → List (K × ℕ)
  remove k [] = []
  remove k (e ∷ es) = ite (dec k e.0) es (e ∷ remove k es)

  -- The key becomes the one used last.
  abbrev pub touch : K → ℕ → List (K × ℕ) → List (K × ℕ)
  touch k address es = remove k es ++ (k, address) ∷ []

  pub All-remove : (P : K × ℕ → Type 0) (k : K) (es : List (K × ℕ)) → All P es → All P (remove k es)
  unfolding remove
  All-remove P k [] h = tt
  All-remove P k (e ∷ es) h = elim (dec k e.0) [
    | yes p ↦ rw (if_pos _ p) h.1
    | no p ↦ rw (if_neg _ p) (h.0, All-remove P k es h.1)
  ]

  pub Distinct-remove :
      (heap : ℕ → Instance) (k : K) (es : List (K × ℕ))
      → Distinct heap es
      → Distinct heap (remove k es)
  unfolding remove
  Distinct-remove heap k [] h = tt
  Distinct-remove heap k (e ∷ es) h = elim (dec k e.0) [
    | yes p ↦ rw (if_pos _ p) h.1
    | no p ↦ rw (if_neg _ p) (All-remove (Apart heap e) k es h.0, Distinct-remove heap k es h.1)
  ]

  find_absent : (k : K) (es : List (K × ℕ)) → All (λ f. k ≢ f.0) es → find k es ≡ none
  unfolding find
  find_absent k [] h = refl
  find_absent k (e ∷ es) h = rw (if_neg _ h.0) (find_absent k es h.1)

  pub remove_absent : (k : K) (es : List (K × ℕ)) → find k es ≡ none → remove k es ≡ es
  unfolding find remove
  remove_absent k [] h = refl
  remove_absent k (e ∷ es) h = elim (dec k e.0) [
    | yes p ↦ absurd (ground arith)
    | no p ↦ if_neg (dec k e.0) p _ _ ∙ ap (◌∷◌ e) (remove_absent k es (ground arith))
  ]

  pub total-remove :
      (heap : ℕ → Instance) (k : K) (a : ℕ) (es : List (K × ℕ))
      → find k es ≡ some a
      → total heap es ≡ weight (heap a) + total heap (remove k es)
  unfolding find remove total
  total-remove heap k a [] h = cc
  total-remove heap k a (e ∷ es) h = elim (dec k e.0) [
    | yes p ↦ ground arith
    | no p ↦ ground (arith, total-remove heap k a es)
  ]

  -- What `find` finds has the properties of all entries.
  pub All-find :
      (P : K × ℕ → Type 0) (k : K) (a : ℕ) (es : List (K × ℕ))
      → All P es
      → find k es ≡ some a
      → P (k, a)
  unfolding find
  All-find P k a [] h e = cc
  All-find P k a (f ∷ es) h e = elim (dec k f.0) [
    | yes p ↦
        let r : f.1 ≡ a = ground arith in subst P {x = f} {y = (k, a)} (λ i. (sym p i, r i)) h.0
    | no p ↦ All-find P k a es h.1 (ground arith)
  ]

  pub find-remove :
      (heap : ℕ → Instance) (k j : K) (es : List (K × ℕ))
      → Distinct heap es
      → find j (remove k es) ≡ ite (dec j k) none (find j es)
  unfolding find remove
  find-remove heap k j [] h = elim (dec j k) [ yes p ↦ rw (if_pos _ p) | no p ↦ rw (if_neg _ p) ]
  find-remove heap k j (e ∷ es) h = elim (dec k e.0) [
    | yes p ↦
        let absent : j ≡ k → find j es ≡ none = λ q.
          find_absent j es
            (All-imp (Apart heap e) (λ f. j ≢ f.0) es (λ f ap r. ap.0 (sym p ∙ sym q ∙ r)) h.0) in
        ground (arith, absent)
    | no p ↦ ground (arith, find-remove heap k j es h.1)
  ]

  pub find-append :
      (k j : K) (a : ℕ) (es : List (K × ℕ))
      → find j (es ++ (k, a) ∷ [])
        ≡ elim (find j es) [ none ↦ ite (dec j k) (some a) none | some b ↦ some b ]
  unfolding find
  find-append k j a [] = refl
  find-append k j a (e ∷ es) = ground (arith, find-append k j a es)

  pub find-touch :
      (heap : ℕ → Instance) (k j : K) (a : ℕ) (es : List (K × ℕ))
      → Distinct heap es
      → find j (touch k a es) ≡ ite (dec j k) (some a) (find j es)
  find-touch heap k j a es h =
      ground (arith, find-append k j a (remove k es), find-remove heap k j es h)

  pub total-append :
      (heap : ℕ → Instance) (k : K) (a : ℕ) (es : List (K × ℕ))
      → total heap (es ++ (k, a) ∷ []) ≡ total heap es + weight (heap a)
  unfolding total
  total-append heap k a [] = omega arith
  total-append heap k a (e ∷ es) = omega (arith, total-append heap k a es)

  pub Distinct-append :
      (heap : ℕ → Instance) (k : K) (a : ℕ) (es : List (K × ℕ))
      → Distinct heap es
      → All (λ f. Apart heap f (k, a)) es
      → Distinct heap (es ++ (k, a) ∷ [])
  Distinct-append heap k a [] h p = (tt, tt)
  Distinct-append heap k a (e ∷ es) h p = (
    All-append (Apart heap e) es ((k, a) ∷ []) h.0 (p.0, tt),
    Distinct-append heap k a es h.1 p.1,
  )

-- The entries that stay when the ones used longest ago are dropped until the rest fits.
unfoldable pub evict : {K : Type 0} → (ℕ → Instance) → ℕ → List (K × ℕ) → List (K × ℕ)
evict heap max [] = []
evict heap max (e ∷ es) =
    let rest = evict heap max es in if leb (total heap (e ∷ es)) max then e ∷ es else rest

pub evict_fits :
    {K : Type 0} (heap : ℕ → Instance) (max : ℕ) (es : List (K × ℕ))
    → total heap es ≤ max
    → evict heap max es ≡ es
unfolding evict
evict_fits heap max [] h = refl
evict_fits heap max (e ∷ es) h = ground arith

pub evict_over :
    {K : Type 0} (heap : ℕ → Instance) (max : ℕ) (e : K × ℕ) (es : List (K × ℕ))
    → max < total heap (e ∷ es)
    → evict heap max (e ∷ es) ≡ evict heap max es
unfolding evict
evict_over heap max e es h = ground arith

-- What stays fits, and whatever is dropped is dropped because the rest with it does not fit.
pub evict-le :
    {K : Type 0} (heap : ℕ → Instance) (max : ℕ) (es : List (K × ℕ))
    → total heap (evict heap max es) ≤ max
unfolding evict total
evict-le heap max [] = omega arith
evict-le heap max (e ∷ es) = ground (arith, evict-le heap max es)

-- Two heaps in which every instance has the same weight.
module _ {K : Type 0} (heap heap' : ℕ → Instance)
    (same : (a : ℕ) → weight (heap' a) ≡ weight (heap a)) where
  pub total_cong : (es : List (K × ℕ)) → total heap' es ≡ total heap es
  unfolding total
  total_cong [] = refl
  total_cong (e ∷ es) = omega (arith, same e.1, total_cong es)

  pub evict_cong : (max : ℕ) (es : List (K × ℕ)) → evict heap' max es ≡ evict heap max es
  unfolding evict
  evict_cong max [] = refl
  evict_cong max (e ∷ es) = ground (arith, total_cong (e ∷ es), evict_cong max es)
