-- ===== src/Ecc/Encoder/Loops.antt =====
-- What each inner loop of `dfs_encoder` (`ECC Code/encoder.cpp`) leaves.
use native.Mathlib.Nat.{add-zero}
use tiny_projects_and_tools.Base.{
  ℕ, zero, suc, ◌+◌, ◌-◌, ◌≤◌, ◌<◌, ◌≡◌, refl, sym, ap, ◌∙◌, ◌⊎◌, inl, inr, List, [], ◌∷◌, some,
  bit_xor, bit_xor_assoc, bit_xor-zero, length, get_elem?, set, length-set, get_elem?-set_self,
  get_elem?-set_ne, get_elem?-total, store-set, arith,
}
use tiny_projects_and_tools.Ecc.Field.{add28}
use tiny_projects_and_tools.Ecc.Field.Product.{gf_mul, gf_pow}
use tiny_projects_and_tools.Ecc.Field.Tables.{multiply28-eq-gf_mul}
use tiny_projects_and_tools.Ecc.Field.Laws.{
  gf_mul-lt, gf_pow-lt, gf_mul_assoc, gf_mul-bit_xor, gf_mul-zero,
}
use tiny_projects_and_tools.Ecc.Polynomial.{IsBytes, eval, eval-nil, eval-lt}
use tiny_projects_and_tools.Ecc.Encoder.{copy_message, fill_powers, sum_products}

pub record Copied (m p r : List ℕ) : Type 0 where
  pub size : length r ≡ length p
  pub same : (j : ℕ) → j < length m → get_elem? r j ≡ get_elem? m j

-- A write at `i` into what agrees with `m` below `i` agrees below `i + 1`.
agree-set :
    (m p : List ℕ) (i x : ℕ)
    → i < length p
    → get_elem? m i ≡ some x
    → ((j : ℕ) → j < i → get_elem? p j ≡ get_elem? m j)
    → (j : ℕ) → j < i + 1
    → get_elem? (set p i x) j ≡ get_elem? m j
agree-set m p i x h e same j lt = elim (last) [
  | inl before ↦ get_elem?-set_ne p x (omega arith) ∙ same j before
  | inr here ↦ rw here (get_elem?-set_self p i x h ∙ sym e)
]
  where
    last : (j < i) ⊎ (j ≡ i)
    last = omega arith

pub copy_message-Copied :
    (left i : ℕ) (m p : List ℕ)
    → i + left ≡ length m
    → length m ≤ length p
    → ((j : ℕ) → j < i → get_elem? p j ≡ get_elem? m j)
    → (r : List ℕ) × (copy_message left i m p ≡ some r) × Copied m p r
unfolding copy_message
copy_message-Copied zero i m p e h same =
    (p, refl, record { size = refl; same = λ j lt. same j (omega arith) })
copy_message-Copied (suc left) i m p e h same =
    let (x, found) = get_elem?-total m i (omega arith) in
    let (r, done, c) =
      copy_message-Copied left (i + 1) m (set p i x) (omega arith) (omega (arith, length-set p i x))
        (agree-set m p i x (omega arith) found same) in
    (
      r,
      rw (found, store-set p i x (omega arith)) done,
      record { size = c.size ∙ length-set p i x; same = c.same },
    )

-- `v` holds the powers of `base` below the index `j`.
abbrev pub HasPowers : ℕ → ℕ → List ℕ → Type 0
HasPowers base j v = (i : ℕ) → i < j → get_elem? v i ≡ some (gf_pow base i)

HasPowers-set :
    (base j : ℕ) (v : List ℕ)
    → suc j < length v
    → HasPowers base (suc j) v
    → HasPowers base (suc j + 1) (set v (suc j) (gf_mul (gf_pow base j) base))
unfolding gf_pow
HasPowers-set base j v h p i lt = elim (last) [
  | inl before ↦ get_elem?-set_ne v _ (omega arith) ∙ p i before
  | inr here ↦ rw here (get_elem?-set_self v (suc j) _ h)
]
  where
    last : (i < suc j) ⊎ (i ≡ suc j)
    last = omega arith

pub fill_powers-HasPowers :
    (left j base : ℕ) (v : List ℕ)
    → base < 256
    → suc j + left ≤ length v
    → HasPowers base (suc j) v
    → (r : List ℕ) × (fill_powers left (suc j) base v ≡ some r)
      × (length r ≡ length v)
      × HasPowers base (suc j + left) r
unfolding fill_powers
fill_powers-HasPowers zero j base v b h p = (v, refl, refl, λ i lt. p i (omega arith))
fill_powers-HasPowers (suc left) j base v b h p =
    let y = gf_mul (gf_pow base j) base in
    let (r, done, size, q) =
      fill_powers-HasPowers left (suc j) base (set v (suc j) y) b
        (omega (arith, length-set v (suc j) y))
        (λ i lt. HasPowers-set base j v (omega arith) p i (omega arith)) in
    (
      r,
      rw
          (
            previous,
            multiply28-eq-gf_mul _ base (gf_pow-lt base j b) b,
            store-set v (suc j) y (omega arith),
            next,
          )
          done,
      size ∙ length-set v (suc j) y,
      λ i lt. q i (omega arith),
    )
  where
    previous : get_elem? v (suc j - 1) ≡ some (gf_pow base j)
    previous = rw (back j) (p j (omega arith))
      where
        back : (k : ℕ) → suc k - 1 ≡ k
        back k = omega arith

    next : suc j + 1 ≡ suc (suc j)
    next = omega arith

-- One term of a sum of products, in front of the terms that follow.
sum_step :
    (sum x j c : ℕ) (cs : List ℕ)
    → x < 256
    → c < 256
    → IsBytes cs
    → bit_xor (bit_xor sum (gf_mul (gf_pow x j) c)) (gf_mul (gf_pow x (suc j)) (eval cs x))
      ≡ bit_xor sum (gf_mul (gf_pow x j) (eval (c ∷ cs) x))
unfolding gf_pow eval
sum_step sum x j c cs hx hc hcs =
    bit_xor_assoc sum _ _
    ∙ ap (bit_xor sum) (
        ap (bit_xor (gf_mul (gf_pow x j) c))
          (gf_mul_assoc (gf_pow x j) x (eval cs x) (gf_pow-lt x j hx) hx (eval-lt cs x hcs))
        ∙ sym (gf_mul-bit_xor (gf_pow x j) c _ hc (gf_mul-lt x _ (eval-lt cs x hcs))))

pub sum_products-eval :
    (rest : List ℕ) (j x sum : ℕ) (v p : List ℕ)
    → x < 256
    → IsBytes rest
    → ((i : ℕ) → i < length rest → get_elem? v (j + i) ≡ some (gf_pow x (j + i)))
    → ((i : ℕ) → i < length rest → get_elem? p (j + i) ≡ get_elem? rest i)
    → sum_products (length rest) j v p sum ≡ some (bit_xor sum (gf_mul (gf_pow x j) (eval rest x)))
unfolding sum_products add28
sum_products-eval [] j x sum v p hx h hv hp =
    ap some (sym (rw (eval-nil x, gf_mul-zero (gf_pow x j)) (bit_xor-zero sum)))
sum_products-eval (c ∷ cs) j x sum v p hx h hv hp =
    let sum' = bit_xor sum (gf_mul (gf_pow x j) c) in
    rw (here_v, here_p, multiply28-eq-gf_mul _ c (gf_pow-lt x j hx) h.0)
      (sum_products-eval cs (j + 1) x sum' v p hx h.1
          (λ i lt. rw (shift i) (hv (suc i) (omega arith)))
          (λ i lt. rw (shift i) (hp (suc i) (omega arith)))
        ∙ ap some (
            ap (λ k. bit_xor sum' (gf_mul (gf_pow x k) (eval cs x))) next
            ∙ sum_step sum x j c cs hx h.0 h.1))
  where
    here_v : get_elem? v j ≡ some (gf_pow x j)
    here_v = rw add-zero at (hv 0 (omega arith))

    here_p : get_elem? p j ≡ some c
    here_p = rw add-zero at (hp 0 (omega arith))

    shift : (i : ℕ) → j + 1 + i ≡ j + suc i
    shift i = omega arith

    next : j + 1 ≡ suc j
    next = omega arith
