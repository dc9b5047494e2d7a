-- ===== src/Ecc/Field/Laws.antt =====
-- The arithmetic of `ECC Code/galoisField.cpp` on bytes.
use tiny_projects_and_tools.Base.{
  ℕ, zero, suc, ◌+◌, ◌<◌, ◌≡◌, refl, ap, ◌∙◌, bit_xor, Bool, true, false, ◌||◌, Option, none, some,
  ◌==◌, if◌then◌else◌, ◌>>=◌, arith,
}
use native.Mathlib.Nat.{add_comm}
use tiny_projects_and_tools.Ecc.Field.{log_table, exp_table, read_table, fold_log, multiply28}
use tiny_projects_and_tools.Ecc.Field.Product.{gf_mul, gf_pow, gf_mul-IsLinear, gf_mul_left_comm}
use tiny_projects_and_tools.Ecc.Field.Tables.{multiply28-eq-gf_mul}

sum_of_reads_comm :
    (o p : Option ℕ) (f : ℕ → Option ℕ)
    → (o >>= λ a. p >>= λ b. f (a + b)) ≡ (p >>= λ b. o >>= λ a. f (b + a))
sum_of_reads_comm none none f = refl
sum_of_reads_comm none (some b) f = refl
sum_of_reads_comm (some a) none f = refl
sum_of_reads_comm (some a) (some b) f = ap f (add_comm a b)

if_or_comm :
    {A : Type 0} (p q : Bool) (a b c : A)
    → b ≡ c
    → (if p || q then a else b) ≡ (if q || p then a else c)
if_or_comm true true a b c e = refl
if_or_comm true false a b c e = refl
if_or_comm false true a b c e = refl
if_or_comm false false a b c e = e

-- The product does not depend on the order of its factors, whatever they are.
pub multiply28_comm : (x y : ℕ) → multiply28 x y ≡ multiply28 y x
unfolding multiply28
multiply28_comm x y = if_or_comm (x == 0) (y == 0) _ _ _ (
    sum_of_reads_comm (read_table log_table x) (read_table log_table y)
      (λ t. read_table exp_table (fold_log t)))

pub gf_mul-lt : (x y : ℕ) → y < 256 → gf_mul x y < 256
gf_mul-lt x y h = (gf_mul-IsLinear x).stays y h

pub gf_mul_comm : (x y : ℕ) → x < 256 → y < 256 → gf_mul x y ≡ gf_mul y x
gf_mul_comm x y hx hy =
    cc (multiply28-eq-gf_mul x y hx hy, multiply28_comm x y, multiply28-eq-gf_mul y x hy hx)

pub gf_mul_assoc :
    (x y z : ℕ) → x < 256 → y < 256 → z < 256 → gf_mul (gf_mul x y) z ≡ gf_mul x (gf_mul y z)
gf_mul_assoc x y z hx hy hz =
    gf_mul_comm _ z (gf_mul-lt x y hy) hz
    ∙ gf_mul_left_comm z x y hy
    ∙ ap (gf_mul x) (gf_mul_comm z y hz hy)

pub gf_mul-bit_xor :
    (x y z : ℕ) → y < 256 → z < 256 → gf_mul x (bit_xor y z) ≡ bit_xor (gf_mul x y) (gf_mul x z)
gf_mul-bit_xor x y z hy hz = (gf_mul-IsLinear x).sums y z hy hz

pub gf_mul-zero : (x : ℕ) → gf_mul x 0 ≡ 0
gf_mul-zero x = (gf_mul-IsLinear x).zeros

pub zero-gf_mul : (x : ℕ) → x < 256 → gf_mul 0 x ≡ 0
zero-gf_mul x h = gf_mul_comm 0 x (omega arith) h ∙ gf_mul-zero x

pub gf_pow-lt : (x n : ℕ) → x < 256 → gf_pow x n < 256
unfolding gf_pow
gf_pow-lt x zero h = omega arith
gf_pow-lt x (suc n) h = gf_mul-lt (gf_pow x n) x h
