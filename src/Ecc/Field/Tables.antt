-- ===== src/Ecc/Field/Tables.antt =====
-- The tables of `ECC Code/galoisField.cpp`, checked entry by entry against the product of bytes as
-- polynomials.
use tiny_projects_and_tools.Base.{
  ℕ, ◌<◌, ◌≡◌, ◌≢◌, refl, ap, Bool, true, false, ◌&&◌, ◌||◌, Option, none, some, ltb, ◌==◌, ==_iff,
  all_below, all_below_sound, arith,
}
use tiny_projects_and_tools.Ecc.Field.{
  exp_table, log_table, inv_table, read_table, fold_log, multiply28, inv28,
}
use tiny_projects_and_tools.Ecc.Field.Product.{gf_mul, gf_pow, all_pairs, all_pairs_sound}

is_some_of : Option ℕ → ℕ → Bool
is_some_of none n = false
is_some_of (some m) n = m == n

is_some_of_sound : (o : Option ℕ) (n : ℕ) → is_some_of o n ≡ true → o ≡ some n
unfolding is_some_of
is_some_of_sound none n h = cc
is_some_of_sound (some m) n h = ap some ((==_iff m n).0 h)

tables : Unit {0}
unfolding exp_table log_table inv_table read_table fold_log
tables = tt

product_table : all_pairs (λ x y. is_some_of (multiply28 x y) (gf_mul x y)) ≡ true
unfolding all_pairs tables multiply28 gf_mul is_some_of
product_table = refl

-- On bytes the product by logarithms is the product of polynomials, and reads inside the tables.
pub multiply28-eq-gf_mul : (x y : ℕ) → x < 256 → y < 256 → multiply28 x y ≡ some (gf_mul x y)
multiply28-eq-gf_mul x y hx hy = is_some_of_sound _ _ (all_pairs_sound _ x y product_table hx hy)

is_inverse : Option ℕ → ℕ → Bool
is_inverse none x = false
is_inverse (some i) x = ltb i 256 && gf_mul x i == 1

is_inverse_sound :
    (o : Option ℕ) (x : ℕ)
    → is_inverse o x ≡ true
    → (i : ℕ) × (o ≡ some i) × (i < 256) × (gf_mul x i ≡ 1)
unfolding is_inverse
is_inverse_sound none x h = cc
is_inverse_sound (some i) x h = (i, refl, ground arith, ground arith)

inverse_table : all_below 256 (λ x. x == 0 || is_inverse (inv28 x) x) ≡ true
unfolding all_below tables inv28 gf_mul is_inverse
inverse_table = refl

-- The table of inverses is read inside it and holds the inverse of every byte other than 0.
pub inv28-inverse :
    (x : ℕ) → x < 256 → x ≢ 0 → (i : ℕ) × (inv28 x ≡ some i) × (i < 256) × (gf_mul x i ≡ 1)
inv28-inverse x h ne = is_inverse_sound (inv28 x) x checked
  where
    entry : (x == 0 || is_inverse (inv28 x) x) ≡ true
    entry = all_below_sound 256 (λ z. z == 0 || is_inverse (inv28 z) z) x inverse_table h

    checked : is_inverse (inv28 x) x ≡ true
    checked = ground (arith, entry)

pub inv28-zero : inv28 0 ≡ some 0
unfolding inv28 tables
inv28-zero = refl

unit_table : all_below 256 (λ x. gf_mul 1 x == x) ≡ true
unfolding all_below gf_mul
unit_table = refl

pub one-gf_mul : (x : ℕ) → x < 256 → gf_mul 1 x ≡ x
one-gf_mul x h = (==_iff _ _).0 (all_below_sound 256 (λ z. gf_mul 1 z == z) x unit_table h)

log_of_power : all_below 255 (λ i. is_some_of (read_table log_table (gf_pow 3 i)) i) ≡ true
unfolding all_below tables gf_pow gf_mul is_some_of
log_of_power = refl

-- The first 255 powers of the generator are distinct: the logarithm tells them apart.
pub gf_pow_injective : (i j : ℕ) → i < 255 → j < 255 → gf_pow 3 i ≡ gf_pow 3 j → i ≡ j
gf_pow_injective i j hi hj e = cc (left, right)
  where
    found : (k : ℕ) → k < 255 → read_table log_table (gf_pow 3 k) ≡ some k
    found k h = is_some_of_sound _ _ (
        all_below_sound 255 (λ z. is_some_of (read_table log_table (gf_pow 3 z)) z) k log_of_power
          h)

    left : read_table log_table (gf_pow 3 i) ≡ some i
    left = found i hi

    right : read_table log_table (gf_pow 3 j) ≡ some j
    right = found j hj
