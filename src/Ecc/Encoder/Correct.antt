-- ===== src/Ecc/Encoder/Correct.antt =====
-- `dfs_encoder` of `ECC Code/encoder.cpp` and the values of the message as a polynomial.
use tiny_projects_and_tools.Base.{
  ℕ, zero, suc, ◌+◌, ◌-◌, ◌≤◌, ◌<◌, ◌≡◌, refl, ap, ◌∙◌, ◌⊎◌, inl, inr, List, some, length,
  get_elem?, set, replicate, length-set, length-replicate, get_elem?-set_self, get_elem?-set_ne,
  get_elem?-replicate, store-set, arith,
}
use native.Mathlib.Numerals.{add-one}
use tiny_projects_and_tools.Ecc.Field.Product.{gf_mul, gf_pow}
use tiny_projects_and_tools.Ecc.Field.Tables.{multiply28-eq-gf_mul, one-gf_mul}
use tiny_projects_and_tools.Ecc.Field.Laws.{gf_pow-lt}
use tiny_projects_and_tools.Ecc.Polynomial.{IsBytes, eval, eval-lt, IsCodeword}
use tiny_projects_and_tools.Ecc.Encoder.{sum_products, encode_rows, dfs_encoder}
use tiny_projects_and_tools.Base.{zero-bit_xor}
use tiny_projects_and_tools.Ecc.Encoder.Loops.{
  copy_message-Copied, HasPowers, fill_powers-HasPowers, sum_products-eval,
}

pub one_power : (x : ℕ) (v : List ℕ) → get_elem? v 0 ≡ some 1 → HasPowers x 1 v
unfolding gf_pow
one_power x v h zero lt = h
one_power x v h (suc i) lt = absurd (omega arith)

pub next_power : (x i : ℕ) → gf_pow x (i + 1) ≡ gf_mul (gf_pow x i) x
next_power x i = rw (add-one i) (unfold gf_pow in refl)

module _ (m : List ℕ) (bytes : IsBytes m) (p : List ℕ)
    (copied : (j : ℕ) → j < length m → get_elem? p j ≡ get_elem? m j) where
  pub row_sum :
      (x : ℕ) (v : List ℕ)
      → x < 256
      → HasPowers x (length m) v
      → sum_products (length m) 0 v p 0 ≡ some (eval m x)
  row_sum x v hx hv =
      sum_products-eval m 0 x 0 v p hx bytes (λ i lt. rw (plus i) (hv i lt))
        (λ i lt. rw (plus i) (copied i lt))
      ∙ ap some (zero-bit_xor _ ∙ unit)
    where
      plus : (i : ℕ) → 0 + i ≡ i
      plus i = omega arith

      unit : gf_mul (gf_pow x 0) (eval m x) ≡ eval m x
      unit = unfold gf_pow in one-gf_mul (eval m x) (eval-lt m x bytes)

  -- A symbol written at `i` behind those below `i`.
  symbol_set :
      (ans : List ℕ) (i j : ℕ)
      → i < length ans
      → j < i + 1
      → ((l : ℕ) → l < i → get_elem? ans l ≡ some (eval m (gf_pow 3 l)))
      → get_elem? (set ans i (eval m (gf_pow 3 i))) j ≡ some (eval m (gf_pow 3 j))
  symbol_set ans i j h lt done = elim (last) [
    | inl before ↦ get_elem?-set_ne ans _ (omega arith) ∙ done j before
    | inr here ↦ rw here (get_elem?-set_self ans i _ h)
  ]
    where
      last : (j < i) ⊎ (j ≡ i)
      last = omega arith

  encode_rows-value :
      (n left i : ℕ) (v ans : List ℕ)
      → i + left ≡ n
      → length m ≤ n
      → length v ≡ n
      → length ans ≡ n
      → (0 < n → get_elem? v 0 ≡ some 1)
      → ((j : ℕ) → j < i → get_elem? ans j ≡ some (eval m (gf_pow 3 j)))
      → (r : List ℕ) × (encode_rows (length m) left i (gf_pow 3 i) v p ans ≡ some r)
        × IsCodeword n m r
  unfolding encode_rows
  encode_rows-value n zero i v ans e k hv hans first done =
      (ans, refl, record { size = hans; value = λ j lt. done j (omega arith) })
  encode_rows-value n (suc left) i v ans e k hv hans first done =
      let x = gf_pow 3 i in
      let hx : x < 256 = gf_pow-lt 3 i (omega arith) in
      let (v', filled, size, powers) =
        fill_powers-HasPowers (length m - 1) 0 x v hx (omega arith)
          (λ l lt. one_power x v (first (omega arith)) l lt) in
      let (r, rest, word) =
        encode_rows-value n left (i + 1) v' (set ans i (eval m x)) (omega arith) k (size ∙ hv)
          (length-set ans i _ ∙ hans) (λ _. powers 0 (omega arith) ∙ unfold gf_pow in refl)
          (λ j lt. symbol_set ans i j (omega arith) lt done) in
      (
        r,
        rw
            (
              filled,
              row_sum x v' hx (λ l lt. powers l (omega arith)),
              store-set ans i _ (omega arith),
              multiply28-eq-gf_mul x 3 hx (omega arith),
            )
            (rw next_power at rest),
        word,
      )

-- A message of bytes that fits the code word is encoded without a fault, and each symbol of the
-- result is the value of the message's polynomial at a power of the generator, in order.
pub dfs_encoder-IsCodeword :
    (n : ℕ) (m : List ℕ)
    → IsBytes m
    → length m ≤ n
    → (r : List ℕ) × (dfs_encoder n m ≡ some r) × IsCodeword n m r
unfolding dfs_encoder gf_pow
dfs_encoder-IsCodeword n m bytes h =
    let (p, copied, c) =
      copy_message-Copied (length m) 0 m (replicate n 0) (omega arith)
        (omega (arith, length-replicate {A = ℕ} n 0)) (λ j lt. absurd (omega arith)) in
    let (r, done, word) =
      encode_rows-value m bytes p c.same n n 0 (replicate n 1) (replicate n 0) (omega arith) h
        (length-replicate n 1) (length-replicate n 0) (λ lt. get_elem?-replicate n 0 1 lt)
        (λ j lt. absurd (omega arith)) in
    (r, rw copied done, word)
