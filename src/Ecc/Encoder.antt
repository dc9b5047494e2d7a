-- ===== src/Ecc/Encoder.antt =====
-- `dfs_encoder` of `ECC Code/encoder.cpp`, one function for each of its loops. `none` is a read or
-- a write outside of a vector or of a table.
pub mod Loops
pub mod Correct
use tiny_projects_and_tools.Base.{
  ℕ, zero, suc, ◌+◌, ◌-◌, List, Option, none, some, length, get_elem?, replicate, store, ◌>>=◌,
}
use tiny_projects_and_tools.Ecc.Field.{add28, multiply28}

-- for(int i = 0; i < k; i++) p[i] = m[i], with `left` rounds to go.
pub copy_message : ℕ → ℕ → List ℕ → List ℕ → Option (List ℕ)
copy_message zero i m p = some p
copy_message (suc left) i m p = do
  x ← get_elem? m i
  p' ← store p i x
  copy_message left (i + 1) m p'

-- for(int j = 1; j < k; j++) v[j] = multiply28(v[j-1], base).
unfoldable pub fill_powers : ℕ → ℕ → ℕ → List ℕ → Option (List ℕ)
fill_powers zero j base v = some v
fill_powers (suc left) j base v = do
  x ← get_elem? v (j - 1)
  y ← multiply28 x base
  v' ← store v j y
  fill_powers left (j + 1) base v'

-- for(int j = 0; j < k; j++) sum = add28(sum, multiply28(v[j], p[j])).
pub sum_products : ℕ → ℕ → List ℕ → List ℕ → ℕ → Option ℕ
sum_products zero j v p sum = some sum
sum_products (suc left) j v p sum = do
  a ← get_elem? v j
  b ← get_elem? p j
  temp ← multiply28 a b
  sum_products left (j + 1) v p (add28 sum temp)

-- The outer loop over the `n` symbols of the answer.
pub encode_rows : ℕ → ℕ → ℕ → ℕ → List ℕ → List ℕ → List ℕ → Option (List ℕ)
encode_rows k zero i base v p ans = some ans
encode_rows k (suc left) i base v p ans = do
  v' ← fill_powers (k - 1) 1 base v
  sum ← sum_products k 0 v' p 0
  ans' ← store ans i sum
  base' ← multiply28 base 3
  encode_rows k left (i + 1) base' v' p ans'

unfoldable pub dfs_encoder : ℕ → List ℕ → Option (List ℕ)
unfolding copy_message fill_powers sum_products encode_rows add28
dfs_encoder n m = do
  p ← copy_message (length m) 0 m (replicate n 0)
  encode_rows (length m) n 0 1 (replicate n 1) p (replicate n 0)
