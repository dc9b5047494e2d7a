-- ===== src/Ecc/Decoder/Loops.antt =====
-- The inner loops of `gaussElimination` of `ECC Code/decoder.cpp`. `none` is a read or a write
-- outside of a vector or of a table.
use tiny_projects_and_tools.Base.{
  ℕ, zero, suc, ◌+◌, ◌-◌, true, false, List, Option, some, get_elem?, store, ltb, ◌==◌, ◌>>=◌,
}
use tiny_projects_and_tools.Ecc.Field.{sub28, multiply28, inv28}

abbrev pub Matrix : Type 0
Matrix = List (List ℕ)

-- M[i][j], and M[i][j] = x.
unfoldable pub cell : Matrix → ℕ → ℕ → Option ℕ
cell matrix i j = do row ← get_elem? matrix i; get_elem? row j

unfoldable pub set_cell : Matrix → ℕ → ℕ → ℕ → Option Matrix
set_cell matrix i j x = do row ← get_elem? matrix i; row' ← store row j x; store matrix i row'

-- for(int k = i + 1; k < n; k++), with `left` rounds to go: the row of the largest number of a
-- column, which is `max_row` so far.
unfoldable pub find_max : ℕ → ℕ → ℕ → Matrix → ℕ → ℕ → Option ℕ
unfolding cell
find_max zero k i matrix max max_row = some max_row
find_max (suc left) k i matrix max max_row = do
  x ← cell matrix k i
  elim (ltb max x) [
    | true ↦ find_max left (k + 1) i matrix x k
    | false ↦ find_max left (k + 1) i matrix max max_row
  ]

-- for(int k = i; k < n+1; k++): exchange the rows `max_row` and `i` from the column `k` on.
unfoldable pub swap_rows : ℕ → ℕ → ℕ → ℕ → Matrix → Option Matrix
unfolding cell set_cell
swap_rows zero k max_row i matrix = some matrix
swap_rows (suc left) k max_row i matrix = do
  tmp ← cell matrix max_row k
  x ← cell matrix i k
  matrix' ← set_cell matrix max_row k x
  matrix'' ← set_cell matrix' i k tmp
  swap_rows left (k + 1) max_row i matrix''

-- The body of for(int j = i; j < n+1; j++).
unfoldable pub eliminate_cell : ℕ → ℕ → ℕ → ℕ → Matrix → Option Matrix
unfolding cell set_cell sub28
eliminate_cell j k i c matrix = elim (i == j) [
  | true ↦ set_cell matrix k j 0
  | false ↦ do
    x ← cell matrix k j
    y ← cell matrix i j
    product ← multiply28 c y
    set_cell matrix k j (sub28 x product)
]

unfoldable pub eliminate_row : ℕ → ℕ → ℕ → ℕ → ℕ → Matrix → Option Matrix
unfolding eliminate_cell
eliminate_row zero j k i c matrix = some matrix
eliminate_row (suc left) j k i c matrix = do
  matrix' ← eliminate_cell j k i c matrix
  eliminate_row left (j + 1) k i c matrix'

-- for(int k = i+1; k < n; k++).
unfoldable pub eliminate_below : ℕ → ℕ → ℕ → ℕ → Matrix → Option Matrix
unfolding cell eliminate_row
eliminate_below zero k i n matrix = some matrix
eliminate_below (suc left) k i n matrix = do
  x ← cell matrix k i
  pivot ← cell matrix i i
  inverse ← inv28 pivot
  c ← multiply28 x inverse
  matrix' ← eliminate_row (n + 1 - i) i k i c matrix
  eliminate_below left (k + 1) i n matrix'

-- for(int k = i-1; k >= 0; k--), at `k` rounds to go.
unfoldable pub substitute : ℕ → ℕ → ℕ → ℕ → Matrix → Option Matrix
unfolding cell set_cell sub28
substitute zero i n x matrix = some matrix
substitute (suc k) i n x matrix = do
  y ← cell matrix k n
  z ← cell matrix k i
  product ← multiply28 x z
  matrix' ← set_cell matrix k n (sub28 y product)
  substitute k i n x matrix'
