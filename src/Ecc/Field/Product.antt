-- ===== src/Ecc/Field/Product.antt =====
-- An independent description of the product in `ECC Code/galoisField.cpp`: bytes are polynomials
-- over the two-element field, multiplied digit by digit and reduced by 0x11B.
use native.Mathlib.Nat.{zero-mul, one-mul}
use tiny_projects_and_tools.Base.{
  ℕ, zero, suc, ◌*◌, ◌/◌, ◌%◌, ◌<◌, ◌≡◌, ◌⊎◌, inl, inr, refl, sym, ap, ap₂, ◌∙◌, bit_xor, Bool,
  true, ltb, ◌==◌, ==_iff, if◌then◌else◌, all_below, all_below_sound, arith, bit_xor-lt,
  bit_xor_swap,
}

-- The product with the polynomial X.
pub xtime : ℕ → ℕ
xtime x = if ltb x 128 then 2 * x else bit_xor (2 * x) 0x11B

-- The product of the lowest `n` digits of `x` with `y`.
pub gf_mul_digits : ℕ → ℕ → ℕ → ℕ
unfolding xtime
gf_mul_digits zero x y = 0
gf_mul_digits (suc n) x y = bit_xor (x % 2 * y) (xtime (gf_mul_digits n (x / 2) y))

unfoldable pub gf_mul : ℕ → ℕ → ℕ
unfolding gf_mul_digits
gf_mul x y = gf_mul_digits 8 x y

unfoldable pub gf_pow : ℕ → ℕ → ℕ
gf_pow x zero = 1
gf_pow x (suc n) = gf_mul (gf_pow x n) x

-- A check of every pair of bytes.
unfoldable pub all_pairs : (ℕ → ℕ → Bool) → Bool
unfolding all_below
all_pairs p = all_below 256 (λ x. all_below 256 (p x))

pub all_pairs_sound :
    (p : ℕ → ℕ → Bool) (x y : ℕ) → all_pairs p ≡ true → x < 256 → y < 256 → p x y ≡ true
unfolding all_pairs
all_pairs_sound p x y h hx hy =
    all_below_sound 256 (p x) y (all_below_sound 256 (λ z. all_below 256 (p z)) x h hx) hy

xtime_range : all_below 256 (λ x. ltb (xtime x) 256) ≡ true
unfolding all_below xtime
xtime_range = refl

pub xtime-lt : (x : ℕ) → x < 256 → xtime x < 256
xtime-lt x h = let t = all_below_sound 256 (λ z. ltb (xtime z) 256) x xtime_range h in ground arith

xtime_table : all_pairs (λ x y. xtime (bit_xor x y) == bit_xor (xtime x) (xtime y)) ≡ true
unfolding all_pairs xtime
xtime_table = refl

pub xtime-bit_xor :
    (x y : ℕ) → x < 256 → y < 256 → xtime (bit_xor x y) ≡ bit_xor (xtime x) (xtime y)
xtime-bit_xor x y hx hy = (==_iff _ _).0 (all_pairs_sound _ x y xtime_table hx hy)

xtime-zero : xtime 0 ≡ 0
unfolding xtime
xtime-zero = refl

digit_cases : (x : ℕ) → (x % 2 ≡ 0) ⊎ (x % 2 ≡ 1)
digit_cases x = omega arith

digit-mul-lt : (x y : ℕ) → y < 256 → x % 2 * y < 256
digit-mul-lt x y h = elim (digit_cases x) [
  | inl e ↦ rw (e, zero-mul) (omega arith)
  | inr e ↦ rw (e, one-mul) h
]

pub gf_mul_digits-lt : (n x y : ℕ) → y < 256 → gf_mul_digits n x y < 256
unfolding gf_mul_digits
gf_mul_digits-lt zero x y h = omega arith
gf_mul_digits-lt (suc n) x y h =
    bit_xor-lt 8 _ _ (digit-mul-lt x y h) (xtime-lt _ (gf_mul_digits-lt n (x / 2) y h))

-- A map on bytes that respects sums and the product with X.
pub record IsLinear (f : ℕ → ℕ) : Type 0 where
  pub stays : (y : ℕ) → y < 256 → f y < 256
  pub sums : (y z : ℕ) → y < 256 → z < 256 → f (bit_xor y z) ≡ bit_xor (f y) (f z)
  pub shifts : (y : ℕ) → y < 256 → f (xtime y) ≡ xtime (f y)
  pub zeros : f 0 ≡ 0

linear_digit : (f : ℕ → ℕ) → IsLinear f → (x y : ℕ) → f (x % 2 * y) ≡ x % 2 * f y
linear_digit f l x y = elim (digit_cases x) [
  | inl e ↦ simp (e, zero-mul) l.zeros
  | inr e ↦ simp (e, one-mul)
]

-- Such a map commutes with the product by any number.
pub gf_mul_digits-linear :
    (f : ℕ → ℕ)
    → IsLinear f
    → (n x y : ℕ) → y < 256
    → gf_mul_digits n x (f y) ≡ f (gf_mul_digits n x y)
unfolding gf_mul_digits
gf_mul_digits-linear f l zero x y h = sym l.zeros
gf_mul_digits-linear f l (suc n) x y h =
    ap₂ bit_xor (sym (linear_digit f l x y)) (
      ap xtime (gf_mul_digits-linear f l n (x / 2) y h)
      ∙ sym (l.shifts _ (gf_mul_digits-lt n (x / 2) y h)))
    ∙ sym (l.sums _ _ (digit-mul-lt x y h) (xtime-lt _ (gf_mul_digits-lt n (x / 2) y h)))

xtime-IsLinear : IsLinear xtime
xtime-IsLinear = record {
  stays = xtime-lt;
  sums = xtime-bit_xor;
  shifts = λ y h. refl;
  zeros = xtime-zero;
}

digit-bit_xor : (x y z : ℕ) → x % 2 * bit_xor y z ≡ bit_xor (x % 2 * y) (x % 2 * z)
digit-bit_xor x y z = elim (digit_cases x) [
  | inl e ↦ simp (e, zero-mul)
  | inr e ↦ simp (e, one-mul)
]

gf_mul_digits-bit_xor :
    (n x y z : ℕ)
    → y < 256
    → z < 256
    → gf_mul_digits n x (bit_xor y z) ≡ bit_xor (gf_mul_digits n x y) (gf_mul_digits n x z)
unfolding gf_mul_digits
gf_mul_digits-bit_xor zero x y z hy hz = refl
gf_mul_digits-bit_xor (suc n) x y z hy hz =
    ap₂ bit_xor (digit-bit_xor x y z) (
      ap xtime (gf_mul_digits-bit_xor n (x / 2) y z hy hz)
      ∙ xtime-bit_xor _ _ (gf_mul_digits-lt n (x / 2) y hy) (gf_mul_digits-lt n (x / 2) z hz))
    ∙ bit_xor_swap _ _ _ _

gf_mul_digits-zero : (n x : ℕ) → gf_mul_digits n x 0 ≡ 0
unfolding gf_mul_digits
gf_mul_digits-zero zero x = refl
gf_mul_digits-zero (suc n) x = elim (digit_cases x) [
  | inl e ↦ rw (e, gf_mul_digits-zero n (x / 2)) refl
  | inr e ↦ rw (e, gf_mul_digits-zero n (x / 2)) refl
]

pub gf_mul-IsLinear : (x : ℕ) → IsLinear (gf_mul x)
unfolding gf_mul
gf_mul-IsLinear x = record {
  stays = gf_mul_digits-lt 8 x;
  sums = gf_mul_digits-bit_xor 8 x;
  shifts = gf_mul_digits-linear xtime xtime-IsLinear 8 x;
  zeros = gf_mul_digits-zero 8 x;
}

-- Products by two numbers can be made in either order.
pub gf_mul_left_comm : (x y z : ℕ) → z < 256 → gf_mul x (gf_mul y z) ≡ gf_mul y (gf_mul x z)
unfolding gf_mul
gf_mul_left_comm x y z h = gf_mul_digits-linear (gf_mul y) (gf_mul-IsLinear y) 8 x z h
