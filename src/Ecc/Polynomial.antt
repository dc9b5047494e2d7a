-- ===== src/Ecc/Polynomial.antt =====
-- A message of `ECC Code` read as a polynomial over the field of 256 elements, lowest coefficient
-- first, and what its code word is.
use tiny_projects_and_tools.Base.{
  ℕ, ◌<◌, ◌≡◌, refl, List, [], ◌∷◌, some, bit_xor, bit_xor-lt, length, get_elem?, arith,
}
use tiny_projects_and_tools.Ecc.Field.Product.{gf_mul, gf_pow}
use tiny_projects_and_tools.Ecc.Field.Laws.{gf_mul-lt}

abbrev pub IsBytes : List ℕ → Type 0
IsBytes [] = Unit {0}
IsBytes (x ∷ xs) = (x < 256) × IsBytes xs

-- The value of the polynomial at `x`, by Horner's rule.
unfoldable pub eval : List ℕ → ℕ → ℕ
eval [] x = 0
eval (c ∷ cs) x = bit_xor c (gf_mul x (eval cs x))

pub eval-nil : (x : ℕ) → eval [] x ≡ 0
unfolding eval
eval-nil x = refl

pub eval-lt : (m : List ℕ) (x : ℕ) → IsBytes m → eval m x < 256
unfolding eval
eval-lt [] x h = omega arith
eval-lt (c ∷ cs) x h = bit_xor-lt 8 _ _ h.0 (gf_mul-lt x _ (eval-lt cs x h.1))

-- The code word of `n` symbols: the values at the first `n` powers of the generator.
pub record IsCodeword (n : ℕ) (m : List ℕ) (r : List ℕ) : Type 0 where
  pub size : length r ≡ n
  pub value : (i : ℕ) → i < n → get_elem? r i ≡ some (eval m (gf_pow 3 i))
