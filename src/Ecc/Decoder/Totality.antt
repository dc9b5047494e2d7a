-- ===== src/Ecc/Decoder/Totality.antt =====
-- The loops of `gaussElimination` of `ECC Code/decoder.cpp` stay inside of their
-- vectors and of the tables of the field.
use tiny_projects_and_tools.Base.{
  ℕ, zero, suc, ◌+◌, ◌-◌, ◌≤◌, ◌<◌, ◌≡◌, refl, ap, ◌∙◌, inl, inr, List, length, replicate, All,
  arith, ltb, ◌==◌, Bool-cases, bit_xor-lt,
}
use tiny_projects_and_tools.Base.Partial.{
  Succeeds, some-Succeeds, Succeeds-imp, >>=-Succeeds, get_elem?-Succeeds, store-Succeeds,
}
use tiny_projects_and_tools.Ecc.Field.{sub28, multiply28, inv28}
use tiny_projects_and_tools.Ecc.Field.Product.{gf_mul}
use tiny_projects_and_tools.Ecc.Field.Tables.{multiply28-eq-gf_mul, inv28-inverse, inv28-zero}
use tiny_projects_and_tools.Ecc.Field.Laws.{gf_mul-lt}
use tiny_projects_and_tools.Ecc.Decoder.{triangulate, solve, gauss_elimination}
use tiny_projects_and_tools.Ecc.Decoder.Loops.{
  Matrix, cell, set_cell, find_max, swap_rows, eliminate_cell, eliminate_row, eliminate_below,
  substitute,
}

abbrev pub IsByte : ℕ → Type 0
IsByte x = x < 256

-- A row of `w` bytes, and a matrix of `n` of them.
abbrev pub IsRow : ℕ → List ℕ → Type 0
IsRow w row = (length row ≡ w) × All IsByte row

abbrev pub IsShaped : ℕ → ℕ → Matrix → Type 0
IsShaped n w matrix = (length matrix ≡ n) × All (IsRow w) matrix

pub multiply28-Succeeds : (x y : ℕ) → IsByte x → IsByte y → Succeeds IsByte (multiply28 x y)
multiply28-Succeeds x y hx hy = record {
  value = gf_mul x y;
  runs = multiply28-eq-gf_mul x y hx hy;
  holds = gf_mul-lt x y hy;
}

inv28-Succeeds : (x : ℕ) → IsByte x → Succeeds IsByte (inv28 x)
inv28-Succeeds zero h = record { value = 0; runs = inv28-zero; holds = omega arith }
inv28-Succeeds (suc x) h =
    let (i, runs, lt, _) = inv28-inverse (suc x) h (λ e. absurd (omega (arith, e))) in
    record { value = i; runs = runs; holds = lt }

sub28-IsByte : (x y : ℕ) → IsByte x → IsByte y → IsByte (sub28 x y)
unfolding sub28
sub28-IsByte x y hx hy = bit_xor-lt 8 x y hx hy

module _ {n w : ℕ} where
  cell-Succeeds :
      (matrix : Matrix) (i j : ℕ)
      → IsShaped n w matrix
      → i < n
      → j < w
      → Succeeds IsByte (cell matrix i j)
  unfolding cell
  cell-Succeeds matrix i j h hi hj =
      >>=-Succeeds (get_elem?-Succeeds matrix i h.1 (omega (arith, h.0)))
        (λ row q. get_elem?-Succeeds row j q.1 (omega (arith, q.0)))

  set_cell-Succeeds :
      (matrix : Matrix) (i j x : ℕ)
      → IsShaped n w matrix
      → i < n
      → j < w
      → IsByte x
      → Succeeds (IsShaped n w) (set_cell matrix i j x)
  unfolding set_cell
  set_cell-Succeeds matrix i j x h hi hj hx =
      >>=-Succeeds (get_elem?-Succeeds matrix i h.1 (omega (arith, h.0))) (λ row q.
        >>=-Succeeds (store-Succeeds row j x q.1 hx (omega (arith, q.0))) (λ row' q'.
          Succeeds-imp (store-Succeeds matrix i row' h.1 (q'.0 ∙ q.0, q'.1) (omega (arith, h.0)))
            (λ m s. (s.0 ∙ h.0, s.1))))

  find_max-Succeeds :
      (left k i : ℕ) (matrix : Matrix) (max max_row : ℕ)
      → IsShaped n w matrix
      → k + left ≤ n
      → i < w
      → max_row < n
      → Succeeds (λ r. r < n) (find_max left k i matrix max max_row)
  unfolding find_max
  find_max-Succeeds zero k i matrix max max_row h hk hi hr = some-Succeeds max_row hr
  find_max-Succeeds (suc left) k i matrix max max_row h hk hi hr =
      >>=-Succeeds (cell-Succeeds matrix k i h (omega arith) hi) (λ x hx.
        elim (Bool-cases (ltb max x)) [
          | inl e ↦
              rw e (find_max-Succeeds left (k + 1) i matrix x k h (omega arith) hi (omega arith))
          | inr e ↦ rw e (find_max-Succeeds left (k + 1) i matrix max max_row h (omega arith) hi hr)
        ])

  swap_rows-Succeeds :
      (left k max_row i : ℕ) (matrix : Matrix)
      → IsShaped n w matrix
      → k + left ≤ w
      → max_row < n
      → i < n
      → Succeeds (IsShaped n w) (swap_rows left k max_row i matrix)
  unfolding swap_rows
  swap_rows-Succeeds zero k max_row i matrix h hk hr hi = some-Succeeds matrix h
  swap_rows-Succeeds (suc left) k max_row i matrix h hk hr hi =
      >>=-Succeeds (cell-Succeeds matrix max_row k h hr (omega arith)) (λ tmp ht.
        >>=-Succeeds (cell-Succeeds matrix i k h hi (omega arith)) (λ x hx.
          >>=-Succeeds (set_cell-Succeeds matrix max_row k x h hr (omega arith) hx) (λ m hm.
            >>=-Succeeds (set_cell-Succeeds m i k tmp hm hi (omega arith) ht)
              (λ m' hm'. swap_rows-Succeeds left (k + 1) max_row i m' hm' (omega arith) hr hi))))

  eliminate_cell-Succeeds :
      (j k i c : ℕ) (matrix : Matrix)
      → IsShaped n w matrix
      → j < w
      → k < n
      → i < n
      → IsByte c
      → Succeeds (IsShaped n w) (eliminate_cell j k i c matrix)
  unfolding eliminate_cell
  eliminate_cell-Succeeds j k i c matrix h hj hk hi hc = elim (Bool-cases (i == j)) [
    | inl e ↦ rw (e, eliminate_cell) (set_cell-Succeeds matrix k j 0 h hk hj (omega arith))
    | inr e ↦
        rw (e, eliminate_cell)
          (>>=-Succeeds (cell-Succeeds matrix k j h hk hj) (λ x hx.
            >>=-Succeeds (cell-Succeeds matrix i j h hi hj) (λ y hy.
              >>=-Succeeds (multiply28-Succeeds c y hc hy) (λ product hp.
                set_cell-Succeeds matrix k j (sub28 x product) h hk hj
                  (sub28-IsByte x product hx hp)))))
  ]

  eliminate_row-Succeeds :
      (left j k i c : ℕ) (matrix : Matrix)
      → IsShaped n w matrix
      → j + left ≤ w
      → k < n
      → i < n
      → IsByte c
      → Succeeds (IsShaped n w) (eliminate_row left j k i c matrix)
  unfolding eliminate_row
  eliminate_row-Succeeds zero j k i c matrix h hj hk hi hc = some-Succeeds matrix h
  eliminate_row-Succeeds (suc left) j k i c matrix h hj hk hi hc =
      >>=-Succeeds (eliminate_cell-Succeeds j k i c matrix h (omega arith) hk hi hc)
        (λ m hm. eliminate_row-Succeeds left (j + 1) k i c m hm (omega arith) hk hi hc)

  -- From here on the rows have at least as many columns as the loops of `n` rows use.
  module _ (wide : n < w) where
    eliminate_below-Succeeds :
        (left k i : ℕ) (matrix : Matrix)
        → IsShaped n w matrix
        → k + left ≤ n
        → i < n
        → Succeeds (IsShaped n w) (eliminate_below left k i n matrix)
    unfolding eliminate_below
    eliminate_below-Succeeds zero k i matrix h hk hi = some-Succeeds matrix h
    eliminate_below-Succeeds (suc left) k i matrix h hk hi =
        >>=-Succeeds (cell-Succeeds matrix k i h (omega arith) (omega arith)) (λ x hx.
          >>=-Succeeds (cell-Succeeds matrix i i h hi (omega arith)) (λ pivot hp.
            >>=-Succeeds (inv28-Succeeds pivot hp) (λ inverse hv.
              >>=-Succeeds (multiply28-Succeeds x inverse hx hv) (λ c hc.
                >>=-Succeeds
                  (eliminate_row-Succeeds (n + 1 - i) i k i c matrix h (omega arith) (omega arith)
                    hi hc)
                  (λ m hm. eliminate_below-Succeeds left (k + 1) i m hm (omega arith) hi)))))

    triangulate-Succeeds :
        (left i : ℕ) (matrix : Matrix)
        → IsShaped n w matrix
        → i + left ≤ n
        → Succeeds (IsShaped n w) (triangulate left i n matrix)
    unfolding triangulate
    triangulate-Succeeds zero i matrix h hi = some-Succeeds matrix h
    triangulate-Succeeds (suc left) i matrix h hi =
        >>=-Succeeds (cell-Succeeds matrix i i h (omega arith) (omega arith)) (λ max hm.
          >>=-Succeeds
            (find_max-Succeeds (n - (i + 1)) (i + 1) i matrix max i h (omega arith) (omega arith)
              (omega arith))
            (λ max_row hr.
              >>=-Succeeds
                (swap_rows-Succeeds (n + 1 - i) i max_row i matrix h (omega arith) hr (omega arith))
                (λ swapped hs.
                  >>=-Succeeds
                    (eliminate_below-Succeeds (n - (i + 1)) (i + 1) i swapped hs (omega arith)
                      (omega arith))
                    (λ m he. triangulate-Succeeds left (i + 1) m he (omega arith)))))

    substitute-Succeeds :
        (k i x : ℕ) (matrix : Matrix)
        → IsShaped n w matrix
        → k ≤ n
        → i < n
        → IsByte x
        → Succeeds (IsShaped n w) (substitute k i n x matrix)
    unfolding substitute
    substitute-Succeeds zero i x matrix h hk hi hx = some-Succeeds matrix h
    substitute-Succeeds (suc k) i x matrix h hk hi hx =
        >>=-Succeeds (cell-Succeeds matrix k n h (omega arith) wide) (λ y hy.
          >>=-Succeeds (cell-Succeeds matrix k i h (omega arith) (omega arith)) (λ z hz.
            >>=-Succeeds (multiply28-Succeeds x z hx hz) (λ product hp.
              >>=-Succeeds
                (set_cell-Succeeds matrix k n (sub28 y product) h (omega arith) wide
                  (sub28-IsByte y product hy hp))
                (λ m hm. substitute-Succeeds k i x m hm (omega arith) hi hx))))

    solve-Succeeds :
        (i : ℕ) (matrix : Matrix) (xs : List ℕ)
        → IsShaped n w matrix
        → IsRow n xs
        → i ≤ n
        → Succeeds (IsRow n) (solve i n matrix xs)
    unfolding solve
    solve-Succeeds zero matrix xs h hxs hi = some-Succeeds xs hxs
    solve-Succeeds (suc i) matrix xs h hxs hi =
        >>=-Succeeds (cell-Succeeds matrix i n h (omega arith) wide) (λ y hy.
          >>=-Succeeds (cell-Succeeds matrix i i h (omega arith) (omega arith)) (λ pivot hp.
            >>=-Succeeds (inv28-Succeeds pivot hp) (λ inverse hv.
              >>=-Succeeds (multiply28-Succeeds y inverse hy hv) (λ x hx.
                >>=-Succeeds (store-Succeeds xs i x hxs.1 hx (omega (arith, hxs.0))) (λ xs' hxs'.
                  >>=-Succeeds (substitute-Succeeds i i x matrix h (omega arith) (omega arith) hx)
                    (λ m hm. solve-Succeeds i m xs' hm (hxs'.0 ∙ hxs.0, hxs'.1) (omega arith)))))))

pub replicate-IsRow : (n x : ℕ) → IsByte x → IsRow n (replicate n x)
replicate-IsRow zero x h = (refl, tt)
replicate-IsRow (suc n) x h = let q = replicate-IsRow n x h in (ap suc q.0, (h, q.1))

-- On any system of bytes with more columns than rows, the elimination ends without a fault, also
-- where a pivot is 0, and returns a byte for each row.
pub gauss_elimination-Succeeds :
    (n w : ℕ) (matrix : Matrix)
    → IsShaped n w matrix
    → n < w
    → Succeeds (IsRow n) (gauss_elimination matrix)
unfolding gauss_elimination
gauss_elimination-Succeeds n w matrix h wide = rw h.0 (
    >>=-Succeeds (triangulate-Succeeds wide n 0 matrix h (omega arith)) (λ upper hu.
      solve-Succeeds wide n upper (replicate n 0) hu (replicate-IsRow n 0 (omega arith))
        (omega arith)))
