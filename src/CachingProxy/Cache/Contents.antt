-- ===== src/CachingProxy/Cache/Contents.antt =====
-- That the cache (`Web Proxy_C/Proxy with Cache/cache.cpp`) leaves what its instances hold as it is.
use mathlib.Core.List.{head?}
use tiny_projects_and_tools.Base.{
  ℕ, zero, suc, ◌+◌, ◌%◌, ◌≡◌, refl, sym, ap, subst, ◌∙◌, inl, inr, length, leb, Option, none, some,
  arith, Option-cases, Bool-cases, ◌>>=◌, >>=-eq-some,
}
use tiny_projects_and_tools.CachingProxy.Instance.{Instance, size_mod, total_size}
use tiny_projects_and_tools.CachingProxy.Cache.{
  Cache, set_iterator, erase_node, erase_entry, erase_map, erase_list, erase_begin, push_back,
  get_hit, get, shrink, insert, put_new, put,
}

abbrev pub Keeps : (ℕ → Instance) → (ℕ → Instance) → Type 0
Keeps heap heap' = (a : ℕ) → ((heap' a).header ≡ (heap a).header) × ((heap' a).body ≡ (heap a).body)

set_iterator-Keeps :
    (heap : ℕ → Instance) (address id : ℕ) → Keeps heap (set_iterator heap address id)
unfolding set_iterator
set_iterator-Keeps heap address id a = ground arith

module _ {K : Type 0} (dec : Discrete K) where
  erase_entry-heap :
      (c c' : Cache K) (k : K) (a n : ℕ) → erase_entry dec c k a n ≡ some c' → c'.heap ≡ c.heap
  unfolding erase_entry
  erase_entry-heap c c' k a n e = ground (arith, e)

  erase_begin-heap : (c c' : Cache K) → erase_begin dec c ≡ some c' → c'.heap ≡ c.heap
  unfolding erase_begin erase_list
  erase_begin-heap c c' e =
      let ((n, k), _, e1) = >>=-eq-some (head? c.list) (erase_list dec c) e in
      let (a, _, e2) = >>=-eq-some (c.map k) (λ a. erase_entry dec c k a n) e1 in
      erase_entry-heap c c' k a n e2

  shrink-heap : (n : ℕ) (c c' : Cache K) → shrink dec n c ≡ some c' → c'.heap ≡ c.heap
  unfolding shrink
  shrink-heap zero c c' e = ground (arith, e)
  shrink-heap (suc n) c c' e = elim (Bool-cases (leb c.size c.max_size)) [
    | inl fits ↦ ground (arith, e, fits)
    | inr large ↦
        let over : (erase_begin dec c >>= λ b. shrink dec n b) ≡ some c' =
          ground (arith, e, large) in
        let (b, e1, e2) = >>=-eq-some (erase_begin dec c) (shrink dec n) over in
        shrink-heap n b c' e2 ∙ erase_begin-heap c b e1
  ]

  put_new-Keeps :
      (c c' : Cache K) (k : K) (a : ℕ) → put_new dec c k a ≡ some c' → Keeps c.heap c'.heap
  unfolding put_new push_back
  put_new-Keeps c c' k a e =
      let (found, _, e1) = >>=-eq-some (inserted k) (from_found) e in
      let (tot, _, e2) = >>=-eq-some (total_size ((pushed found).heap found)) (shrunk found) e1 in
      subst (Keeps c.heap) (sym (shrink-heap (length (pushed found).list) (sized found tot) c' e2))
        (set_iterator-Keeps c.heap found c.next)
    where
      inserted : K → Option ℕ
      inserted = insert dec c.map k a

      pushed : ℕ → Cache K
      pushed found = push_back dec (record c { map = inserted }) k found

      sized : ℕ → ℕ → Cache K
      sized found tot = record (pushed found) { size = (c.size + tot) % size_mod }

      shrunk : ℕ → ℕ → Option (Cache K)
      shrunk found tot = shrink dec (length (pushed found).list) (sized found tot)

      from_found : ℕ → Option (Cache K)
      from_found found = total_size ((pushed found).heap found) >>= shrunk found

  pub put-Keeps : (c c' : Cache K) (k : K) (a : ℕ) → put dec c k a ≡ some c' → Keeps c.heap c'.heap
  unfolding put erase_map
  put-Keeps c c' k a e = elim (Option-cases (c.map k)) [
    | inl absent ↦ put_new-Keeps c c' k a (sym (rw (absent, put) refl) ∙ e)
    | inr (old, present) ↦
        let erased : (erase_map dec c k old >>= λ b. put_new dec b k a) ≡ some c' =
          sym (rw (present, put) refl) ∙ e in
        let (b, e1, e2) = >>=-eq-some (erase_map dec c k old) (λ b. put_new dec b k a) erased in
        subst (λ h. Keeps h c'.heap) (erase_entry-heap c b k old _ e1) (put_new-Keeps b c' k a e2)
  ]

  pub get-Keeps :
      (c c' : Cache K) (k : K) (o : Option ℕ) → get dec c k ≡ some (c', o) → Keeps c.heap c'.heap
  unfolding get get_hit push_back
  get-Keeps c c' k o e = elim (Option-cases (c.map k)) [
    | inl absent ↦ ground (arith, e, absent)
    | inr (address, present) ↦
        let hit : get_hit dec c k address ≡ some (c', o) = sym (rw (present, get) refl) ∙ e in
        let (l, _, e1) =
          >>=-eq-some (erase_node (c.heap address).ite c.list)
            (λ l. some (push_back dec (record c { list = l }) k address, some address)) hit in
        let moved : set_iterator c.heap address c.next ≡ c'.heap = ap heap_of e1 in
        subst (Keeps c.heap) moved (set_iterator-Keeps c.heap address c.next)
  ]
    where
      heap_of : Option (Cache K × Option ℕ) → ℕ → Instance
      heap_of none = c.heap
      heap_of (some (b, _)) = b.heap
