-- ===== src/Ecc/Decoder/System.antt =====
-- The system of equations that `decoder` (`ECC Code/decoder.cpp`) builds from the symbols that it has.
use Prim.Native.Nat.{min}
use tiny_projects_and_tools.Base.{
  ℕ, zero, suc, ◌+◌, ◌-◌, ◌≤◌, ◌<◌, ◌≡◌, refl, sym, ap, subst, ◌∙◌, ◌⊎◌, inl, inr, true, false,
  List, [], ◌∷◌, ◌++◌, some, length, get_elem?, replicate, length-replicate, get_elem?-replicate,
  get_elem?-total, All, arith, ltb, ◌==◌, if◌then◌else◌, Bool-cases, ==_iff, ◌>>=◌,
}
use tiny_projects_and_tools.Ecc.Field.{multiply28}
use tiny_projects_and_tools.Ecc.Field.Product.{gf_pow}
use tiny_projects_and_tools.Ecc.Field.Tables.{multiply28-eq-gf_mul}
use tiny_projects_and_tools.Ecc.Field.Laws.{gf_pow-lt}
use tiny_projects_and_tools.Ecc.Polynomial.{IsBytes, eval}
use tiny_projects_and_tools.Ecc.Encoder.{fill_powers, sum_products}
use tiny_projects_and_tools.Ecc.Encoder.Loops.{HasPowers, fill_powers-HasPowers}
use tiny_projects_and_tools.Ecc.Encoder.Correct.{one_power, next_power, row_sum}
use tiny_projects_and_tools.Ecc.Decoder.{
  power_rows, read_row, gather, gauss_elimination, resize, decoder,
}
use tiny_projects_and_tools.Ecc.Decoder.Loops.{Matrix}

-- A row of `size` numbers with the powers of `x` in it.
pub record PowerRow (x size : ℕ) (matrix : Matrix) (i : ℕ) : Type 0 where
  pub row : List ℕ
  pub here : get_elem? matrix i ≡ some row
  pub long : length row ≡ size
  pub powers : HasPowers x size row

power_rows-step :
    (left size x y : ℕ) (row : List ℕ) (matrix : Matrix)
    → fill_powers (size - 1) 1 x (replicate size 1) ≡ some row
    → multiply28 x 3 ≡ some y
    → power_rows left size y ≡ some matrix
    → power_rows (suc left) size x ≡ some (row ∷ matrix)
unfolding power_rows
power_rows-step left size x y row matrix fills next rest = rw (fills, next, rest) refl

read_row-step :
    (left h x : ℕ) (row v : List ℕ)
    → get_elem? row h ≡ some x
    → read_row left (h + 1) row ≡ some v
    → read_row (suc left) h row ≡ some (x ∷ v)
unfolding read_row
read_row-step left h x row v here rest = rw (here, rest) refl

module _ (size : ℕ) (some_size : 0 < size) where
  filled :
      (x : ℕ)
      → x < 256
      → (r : List ℕ) × (fill_powers (size - 1) 1 x (replicate size 1) ≡ some r)
        × (length r ≡ size)
        × HasPowers x size r
  filled x h =
      let n = length-replicate {A = ℕ} size 1 in
      let (r, fills, long, powers) =
        fill_powers-HasPowers (size - 1) 0 x (replicate size 1) h (omega (arith, n))
          (one_power x (replicate size 1) (get_elem?-replicate size 0 1 some_size)) in
      (r, fills, long ∙ n, λ i lt. powers i (omega arith))

  power_rows-powers :
      (left i : ℕ)
      → (matrix : Matrix) × (power_rows left size (gf_pow 3 i) ≡ some matrix)
        × ((j : ℕ) → j < left → PowerRow (gf_pow 3 (i + j)) size matrix j)
  power_rows-powers zero i = ([], unfold power_rows in refl, λ j lt. absurd (omega arith))
  power_rows-powers (suc left) i =
      let x = gf_pow 3 i in
      let hx : x < 256 = gf_pow-lt 3 i (omega arith) in
      let (row, fills, long, powers) = filled x hx in
      let (matrix, rest, rows) = power_rows-powers left (i + 1) in
      (
        row ∷ matrix,
        power_rows-step left size x (gf_pow 3 (i + 1)) row matrix fills
            (multiply28-eq-gf_mul x 3 hx (omega arith) ∙ ap some (sym (next_power 3 i))) rest,
        row_at i row matrix long powers rows,
      )
    where
      row_at :
          (i : ℕ) (row : List ℕ) (matrix : Matrix)
          → length row ≡ size
          → HasPowers (gf_pow 3 i) size row
          → ((j : ℕ) → j < left → PowerRow (gf_pow 3 (i + 1 + j)) size matrix j)
          → (j : ℕ) → j < suc left
          → PowerRow (gf_pow 3 (i + j)) size (row ∷ matrix) j
      row_at i row matrix long powers rows zero lt = record {
        row = row;
        here = refl;
        long = long;
        powers = subst (λ e. HasPowers (gf_pow 3 e) size row) (omega arith) powers;
      }
      row_at i row matrix long powers rows (suc j) lt =
          let q = rows j (omega arith) in
          record {
            row = q.row;
            here = q.here;
            long = q.long;
            powers = subst (λ e. HasPowers (gf_pow 3 e) size q.row) (omega arith) q.powers;
          }

-- The numbers of a row from `h` on.
read_row-reads :
    (left h : ℕ) (row : List ℕ)
    → h + left ≤ length row
    → (v : List ℕ) × (read_row left h row ≡ some v)
      × (length v ≡ left)
      × ((j : ℕ) → j < left → get_elem? v j ≡ get_elem? row (h + j))
read_row-reads zero h row f = ([], unfold read_row in refl, refl, λ j lt. absurd (omega arith))
read_row-reads (suc left) h row f =
    let (x, here) = get_elem?-total row h (omega arith) in
    let (v, reads, long, same) = read_row-reads left (h + 1) row (omega arith) in
    (x ∷ v, read_row-step left h x row v here reads, omega (arith, long), reads_at x v here same)
  where
    reads_at :
        (x : ℕ) (v : List ℕ)
        → get_elem? row h ≡ some x
        → ((j : ℕ) → j < left → get_elem? v j ≡ get_elem? row (h + 1 + j))
        → (j : ℕ) → j < suc left
        → get_elem? (x ∷ v) j ≡ get_elem? row (h + j)
    reads_at x v here same zero lt = sym here ∙ ap (get_elem? row) (omega arith)
    reads_at x v here same (suc j) lt = same j (omega arith) ∙ ap (get_elem? row) (omega arith)

-- A row of the system is an equation of the message: the encoder's sum of products of its powers and
-- the message gives its symbol.
pub record Solved (m : List ℕ) (row : List ℕ) : Type 0 where
  pub powers : List ℕ
  pub symbol : ℕ
  pub splits : row ≡ powers ++ symbol ∷ []
  pub long : length powers ≡ length m
  pub holds : sum_products (length m) 0 powers m 0 ≡ some symbol

-- What arrives of a code word: each symbol is missing, or as it was sent.
abbrev pub Received : List ℕ → ℕ → List ℕ → Type 0
Received m i [] = Unit {0}
Received m i (y ∷ c) = ((256 < y) ⊎ (y ≡ eval m (gf_pow 3 i))) × Received m (i + 1) c

-- How many symbols are there.
abbrev pub present : List ℕ → ℕ
present [] = 0
present (y ∷ c) = if ltb 256 y then present c else suc (present c)

-- What the loop does with a symbol.
module _ (k left i count : ℕ) (matrix : Matrix) (c : List ℕ) where
  gather-enough : (count == k) ≡ true → gather k (suc left) i count matrix c ≡ some []
  unfolding gather
  gather-enough e = rw (e, gather) refl

  gather-missing :
      (y : ℕ)
      → (count == k) ≡ false
      → get_elem? c i ≡ some y
      → ltb 256 y ≡ true
      → gather k (suc left) i count matrix c ≡ gather k left (i + 1) count matrix c
  unfolding gather
  gather-missing y e here missing = ground (arith, e, here, missing)

  gather-present :
      (y : ℕ) (row v : List ℕ) (rest : Matrix)
      → (count == k) ≡ false
      → get_elem? c i ≡ some y
      → ltb 256 y ≡ false
      → get_elem? matrix i ≡ some row
      → read_row k 0 row ≡ some v
      → gather k left (i + 1) (count + 1) matrix c ≡ some rest
      → gather k (suc left) i count matrix c ≡ some ((v ++ y ∷ []) ∷ rest)
  unfolding gather
  gather-present y row v rest e here there row_here reads more =
      ground (arith, e, here, there, row_here, reads, more)

pub record Gathered (m : List ℕ) (count left i : ℕ) (matrix : Matrix) (c rest : List ℕ)
    : Type 0 where
  pub rows : Matrix
  pub runs : gather (length m) left i count matrix c ≡ some rows
  pub solved : All (Solved m) rows
  pub enough : length rows ≡ min (length m - count) (present rest)

module _ (m : List ℕ) (bytes : IsBytes m) (size : ℕ) (matrix : Matrix) (c : List ℕ)
    (room : length m ≤ size) (rows : (j : ℕ) → j < size → PowerRow (gf_pow 3 j) size matrix j) where
  -- The equation of a symbol that is there.
  equation :
      (i : ℕ) (q : PowerRow (gf_pow 3 i) size matrix i)
      → (v : List ℕ) × (read_row (length m) 0 q.row ≡ some v)
        × Solved m (v ++ eval m (gf_pow 3 i) ∷ [])
  equation i q =
      let (v, reads, long, same) = read_row-reads (length m) 0 q.row (omega (arith, q.long)) in
      (
        v,
        reads,
        record {
          powers = v;
          symbol = eval m (gf_pow 3 i);
          splits = refl;
          long = long;
          holds =
              row_sum m bytes m (λ j lt. refl) (gf_pow 3 i) v (gf_pow-lt 3 i (omega arith))
                (λ j lt. same j lt ∙ ap (get_elem? q.row) (plus j) ∙ q.powers j (omega arith));
        },
      )
    where
      plus : (j : ℕ) → 0 + j ≡ j
      plus j = omega arith

  gather-Gathered :
      (rest : List ℕ) (i count : ℕ)
      → Received m i rest
      → i + length rest ≤ size
      → count ≤ length m
      → ((j : ℕ) → j < length rest → get_elem? c (i + j) ≡ get_elem? rest j)
      → Gathered m count (length rest) i matrix c rest
  gather-Gathered [] i count received fits le same = record {
    rows = [];
    runs = unfold gather in refl;
    solved = tt;
    enough = omega arith;
  }
  gather-Gathered (y ∷ rest) i count received fits le same = elim (Bool-cases (count == length m)) [
    | inl full ↦ record {
      rows = [];
      runs = gather-enough (length m) (length rest) i count matrix c full;
      solved = tt;
      enough = omega (arith, (==_iff count (length m)).0 full);
    }
    | inr short ↦ elim (Bool-cases (ltb 256 y)) [
      | inl missing ↦
          let again =
            gather-Gathered rest (i + 1) count received.1 (omega arith) le (later i y rest same) in
          record {
            rows = again.rows;
            runs =
                gather-missing (length m) (length rest) i count matrix c y short
                  (first i y rest same) missing
                ∙ again.runs;
            solved = again.solved;
            enough = rw missing again.enough;
          }
      | inr there ↦
          let q = rows i (omega arith) in
          let (v, reads, solves) = equation i q in
          let again =
            gather-Gathered rest (i + 1) (count + 1) received.1 (omega arith) (below short)
              (later i y rest same) in
          let sent : y ≡ eval m (gf_pow 3 i) = as_sent received.0 there in
          record {
            rows = (v ++ y ∷ []) ∷ again.rows;
            runs =
                gather-present (length m) (length rest) i count matrix c y q.row v again.rows short
                  (first i y rest same) there q.here reads again.runs;
            solved = (subst (λ s. Solved m (v ++ s ∷ [])) (sym sent) solves, again.solved);
            enough = rw there (omega (arith, again.enough, below short));
          }
    ]
  ]
    where
      below : (count == length m) ≡ false → count + 1 ≤ length m
      below short = ground arith

      as_sent : (256 < y) ⊎ (y ≡ eval m (gf_pow 3 i)) → ltb 256 y ≡ false → y ≡ eval m (gf_pow 3 i)
      as_sent (inl missing) there = absurd (ground arith)
      as_sent (inr sent) there = sent

      first :
          (i y : ℕ) (rest : List ℕ)
          → ((j : ℕ) → j < suc (length rest) → get_elem? c (i + j) ≡ get_elem? (y ∷ rest) j)
          → get_elem? c i ≡ some y
      first i y rest same = ap (get_elem? c) (omega arith) ∙ same 0 (omega arith)

      later :
          (i y : ℕ) (rest : List ℕ)
          → ((j : ℕ) → j < suc (length rest) → get_elem? c (i + j) ≡ get_elem? (y ∷ rest) j)
          → (j : ℕ) → j < length rest
          → get_elem? c (i + 1 + j) ≡ get_elem? rest j
      later i y rest same j lt = ap (get_elem? c) (omega arith) ∙ same (suc j) (omega arith)

pub record Builds (m : List ℕ) (n : ℕ) (c : List ℕ) : Type 0 where
  pub rows : Matrix
  pub solved : All (Solved m) rows
  pub enough : length rows ≡ min (length m) (present c)
  pub runs :
      decoder (length m) n c ≡ (gauss_elimination rows >>= λ ans. some (resize (length m) ans))

decoder-steps :
    (k n : ℕ) (c : List ℕ) (matrix rows : Matrix)
    → power_rows (length c) (length c) 1 ≡ some matrix
    → gather k (length c) 0 0 matrix c ≡ some rows
    → decoder k n c ≡ (gauss_elimination rows >>= λ ans. some (resize k ans))
unfolding decoder
decoder-steps k n c matrix rows powers gathers = rw (powers, gathers) refl

-- For a message of bytes that is no longer than its code word, which has a symbol at least: from
-- symbols of which each is missing or as it was sent, the decoder builds without a fault a system
-- of as many equations as the message has numbers, or as symbols are there if they are fewer; the
-- message solves every one of them. What it returns is what the elimination makes of the system.
pub decoder-Builds :
    (m : List ℕ) (n : ℕ) (c : List ℕ)
    → IsBytes m
    → 0 < length c
    → length m ≤ length c
    → Received m 0 c
    → Builds m n c
unfolding gf_pow
decoder-Builds m n c bytes some_symbols fits received =
    let (matrix, powers, rows) = power_rows-powers (length c) some_symbols (length c) 0 in
    let q =
      gather-Gathered m bytes (length c) matrix c fits
        (λ j lt. subst (λ e. PowerRow (gf_pow 3 e) (length c) matrix j) (omega arith) (rows j lt)) c
        0 0 received (omega arith) (omega arith) (λ j lt. ap (get_elem? c) (omega arith)) in
    record {
      rows = q.rows;
      solved = q.solved;
      enough = q.enough ∙ ap (λ k. min k (present c)) (omega arith);
      runs = decoder-steps (length m) n c matrix q.rows powers q.runs;
    }
