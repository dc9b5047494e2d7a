-- ===== src/Ecc/Decoder.antt =====
-- `gaussElimination` and `decoder` of `ECC Code/decoder.cpp`, one function for each of their loops.
-- `none` is a read or a write outside of a vector or of a table.
pub mod Loops
pub mod System
pub mod Totality
pub mod Decoding
use tiny_projects_and_tools.Base.{
  ℕ, zero, suc, ◌+◌, ◌-◌, Bool, true, false, List, [], ◌∷◌, ◌++◌, Option, none, some, length, take,
  get_elem?, replicate, store, ltb, ◌==◌, ◌>>=◌,
}
use tiny_projects_and_tools.Ecc.Field.{sub28, multiply28, inv28}
use tiny_projects_and_tools.Ecc.Decoder.Loops.{
  Matrix, cell, find_max, swap_rows, eliminate_below, substitute,
}
use tiny_projects_and_tools.Ecc.Encoder.{fill_powers}

-- The outer loop of the elimination, at the row `i` with `left` rounds to go.
unfoldable pub triangulate : ℕ → ℕ → ℕ → Matrix → Option Matrix
unfolding cell find_max swap_rows eliminate_below
triangulate zero i n matrix = some matrix
triangulate (suc left) i n matrix = do
  max ← cell matrix i i
  max_row ← find_max (n - (i + 1)) (i + 1) i matrix max i
  swapped ← swap_rows (n + 1 - i) i max_row i matrix
  eliminated ← eliminate_below (n - (i + 1)) (i + 1) i n swapped
  triangulate left (i + 1) n eliminated

-- for(int i = n-1; i >= 0; i--), at `i` rounds to go.
unfoldable pub solve : ℕ → ℕ → Matrix → List ℕ → Option (List ℕ)
unfolding cell substitute
solve zero n matrix x = some x
solve (suc i) n matrix x = do
  y ← cell matrix i n
  pivot ← cell matrix i i
  inverse ← inv28 pivot
  x_i ← multiply28 y inverse
  x' ← store x i x_i
  matrix' ← substitute i i n x_i matrix
  solve i n matrix' x'

unfoldable pub gauss_elimination : Matrix → Option (List ℕ)
unfolding triangulate solve
gauss_elimination matrix = do
  upper ← triangulate (length matrix) 0 (length matrix) matrix
  solve (length matrix) (length matrix) upper (replicate (length matrix) 0)

-- The rows of the matrix of powers, from that of `base` on.
unfoldable pub power_rows : ℕ → ℕ → ℕ → Option Matrix
unfolding fill_powers
power_rows zero size base = some []
power_rows (suc left) size base = do
  row ← fill_powers (size - 1) 1 base (replicate size 1)
  base' ← multiply28 base 3
  rest ← power_rows left size base'
  some (row ∷ rest)

-- The first `left` numbers of a row from `h` on.
unfoldable pub read_row : ℕ → ℕ → List ℕ → Option (List ℕ)
read_row zero h row = some []
read_row (suc left) h row = do
  x ← get_elem? row h
  rest ← read_row left (h + 1) row
  some (x ∷ rest)

-- The loop over the symbols: a symbol above 256 is missing, and `k` that are present are enough.
unfoldable pub gather : ℕ → ℕ → ℕ → ℕ → Matrix → List ℕ → Option Matrix
unfolding read_row
gather k zero i line_count matrix c = some []
gather k (suc left) i line_count matrix c = elim (line_count == k) [
  | true ↦ some []
  | false ↦ do
    symbol ← get_elem? c i
    elim (ltb 256 symbol) [
      | true ↦ gather k left (i + 1) line_count matrix c
      | false ↦ do
        row ← get_elem? matrix i
        v ← read_row k 0 row
        rest ← gather k left (i + 1) (line_count + 1) matrix c
        some ((v ++ symbol ∷ []) ∷ rest)
    ]
]

-- ans.resize(k).
unfoldable pub resize : ℕ → List ℕ → List ℕ
resize k xs = take k xs ++ replicate (k - length xs) 0

-- `decoder`, whose parameter `n` is not used.
unfoldable pub decoder : ℕ → ℕ → List ℕ → Option (List ℕ)
unfolding power_rows gather gauss_elimination resize
decoder k n c = do
  matrix ← power_rows (length c) (length c) 1
  new_matrix ← gather k (length c) 0 0 matrix c
  ans ← gauss_elimination new_matrix
  some (resize k ans)
