-- ===== src/Base/Xor.antt =====
-- The laws of `^` on unsigned numbers, at every width.
use Prim.Native.Nat.{
  ℕ, zero, suc, ◌+◌, ◌*◌, ◌/◌, ◌%◌, ◌^◌, ◌≤◌, ◌<◌, digits, differ, bit_xor, bit_xor-bitwise,
}
use mathlib.Core.Path.{◌≡◌, refl, sym, ◌∙◌, ap}
use mathlib.Core.Logic.{◌⊎◌, inl, inr}
use native.Mathlib.Nat.{le_refl, pow-suc}
use native.Mathlib.Omega.{arith}

-- The digits of the exclusive or with a bound on the rounds, and what a larger bound adds: nothing.
abbrev xor_rounds : ℕ → ℕ → ℕ → ℕ
xor_rounds rounds a b = digits (λ y. y) differ rounds a b

one_more_round : (rounds a b : ℕ) → a ≤ rounds → xor_rounds (suc rounds) a b ≡ xor_rounds rounds a b
one_more_round zero zero b h = refl
one_more_round zero (suc a) b h = absurd (omega arith)
one_more_round (suc rounds) zero b h = refl
one_more_round (suc rounds) (suc a) b h =
    ap (λ high. high * 2 + differ (suc a % 2) (b % 2))
      (one_more_round rounds (suc a / 2) (b / 2) (omega arith))

enough_rounds : (rounds a b : ℕ) → a ≤ rounds → xor_rounds rounds a b ≡ xor_rounds a a b
enough_rounds zero a b h = let none_left : a ≡ 0 = omega arith in rw none_left
enough_rounds (suc rounds) a b h = elim (small_or_equal) [
  | inl small ↦ one_more_round rounds a b small ∙ enough_rounds rounds a b small
  | inr equal ↦ rw equal
]
  where
    small_or_equal : (a ≤ rounds) ⊎ (a ≡ suc rounds)
    small_or_equal = omega arith

differ_digits : (x y : ℕ) → x < 2 → y < 2 → differ x y ≡ (x + y) % 2
differ_digits zero y p q = omega arith
differ_digits (suc zero) zero p q = refl
differ_digits (suc zero) (suc zero) p q = refl
differ_digits (suc zero) (suc (suc y)) p q = absurd (omega arith)
differ_digits (suc (suc x)) y p q = absurd (omega arith)

differ_mod : (a b : ℕ) → differ (a % 2) (b % 2) ≡ (a + b) % 2
differ_mod a b = omega (arith, differ_digits (a % 2) (b % 2) (omega arith) (omega arith))

pub bit_xor_step : (a b : ℕ) → bit_xor a b ≡ bit_xor (a / 2) (b / 2) * 2 + (a + b) % 2
bit_xor_step zero b = simp bit_xor-bitwise (omega arith)
bit_xor_step (suc a) b = rw (← differ_mod (suc a) b) (
    simp bit_xor-bitwise (
      ap (λ high. high * 2 + differ (suc a % 2) (b % 2))
        (enough_rounds a (suc a / 2) (b / 2) (omega arith))))

pub zero-bit_xor : (b : ℕ) → bit_xor 0 b ≡ b
zero-bit_xor b = bit_xor-bitwise 0 b

bit_xor_comm_fuel : (n a b : ℕ) → a ≤ n → b ≤ n → bit_xor a b ≡ bit_xor b a
bit_xor_comm_fuel zero a b p q =
    let e : a ≡ 0 = omega arith in let f : b ≡ 0 = omega arith in rw (e, f)
bit_xor_comm_fuel (suc n) a b p q = omega (
  arith,
  bit_xor_step a b,
  bit_xor_step b a,
  bit_xor_comm_fuel n (a / 2) (b / 2) (omega arith) (omega arith),
)

pub bit_xor_comm : (a b : ℕ) → bit_xor a b ≡ bit_xor b a
bit_xor_comm a b = bit_xor_comm_fuel (a + b) a b (omega arith) (omega arith)

bit_xor_assoc_fuel :
    (n a b c : ℕ) → a ≤ n → b ≤ n → c ≤ n → bit_xor (bit_xor a b) c ≡ bit_xor a (bit_xor b c)
bit_xor_assoc_fuel zero a b c p q r =
    let e : a ≡ 0 = omega arith in
    let f : b ≡ 0 = omega arith in let g : c ≡ 0 = omega arith in rw (e, f, g)
bit_xor_assoc_fuel (suc n) a b c p q r = omega (
  arith,
  bit_xor_step (bit_xor a b) c,
  bit_xor_step a (bit_xor b c),
  bit_xor_step a b,
  bit_xor_step b c,
  halves,
  bit_xor_assoc_fuel n (a / 2) (b / 2) (c / 2) (omega arith) (omega arith) (omega arith),
)
  where
    left : bit_xor a b / 2 ≡ bit_xor (a / 2) (b / 2)
    left = omega (arith, bit_xor_step a b)

    right : bit_xor b c / 2 ≡ bit_xor (b / 2) (c / 2)
    right = omega (arith, bit_xor_step b c)

    halves :
        (bit_xor (bit_xor a b / 2) (c / 2) ≡ bit_xor (bit_xor (a / 2) (b / 2)) (c / 2))
        × (bit_xor (a / 2) (bit_xor b c / 2) ≡ bit_xor (a / 2) (bit_xor (b / 2) (c / 2)))
    halves = (rw left, rw right)

pub bit_xor_assoc : (a b c : ℕ) → bit_xor (bit_xor a b) c ≡ bit_xor a (bit_xor b c)
bit_xor_assoc a b c = bit_xor_assoc_fuel (a + b + c) a b c (omega arith) (omega arith) (omega arith)

pub bit_xor-zero : (a : ℕ) → bit_xor a 0 ≡ a
bit_xor-zero a = bit_xor_comm a 0 ∙ zero-bit_xor a

bit_xor_self_fuel : (n a : ℕ) → a ≤ n → bit_xor a a ≡ 0
bit_xor_self_fuel zero a p = let e : a ≡ 0 = omega arith in rw e
bit_xor_self_fuel (suc n) a p =
    omega (arith, bit_xor_step a a, bit_xor_self_fuel n (a / 2) (omega arith))

pub bit_xor_self : (a : ℕ) → bit_xor a a ≡ 0
bit_xor_self a = bit_xor_self_fuel a a (le_refl _)

-- Adding the same number twice changes nothing.
pub bit_xor_cancel : (a b : ℕ) → bit_xor a (bit_xor a b) ≡ b
bit_xor_cancel a b =
    sym (bit_xor_assoc a a b) ∙ ap (λ x. bit_xor x b) (bit_xor_self a) ∙ zero-bit_xor b

pub bit_xor-lt : (k a b : ℕ) → a < 2 ^ k → b < 2 ^ k → bit_xor a b < 2 ^ k
bit_xor-lt zero a b p q =
    let e : a ≡ 0 = omega arith in let f : b ≡ 0 = omega arith in rw (e, f) (omega arith)
bit_xor-lt (suc k) a b p q = omega (
  arith,
  bit_xor_step a b,
  pow-suc 2 k,
  bit_xor-lt k (a / 2) (b / 2) (omega (arith, pow-suc 2 k)) (omega (arith, pow-suc 2 k)),
)

-- Two sums of four regroup.
pub bit_xor_swap :
    (a b c d : ℕ) → bit_xor (bit_xor a b) (bit_xor c d) ≡ bit_xor (bit_xor a c) (bit_xor b d)
bit_xor_swap a b c d =
    bit_xor_assoc a b (bit_xor c d)
    ∙ ap (bit_xor a)
        (sym (bit_xor_assoc b c d) ∙ ap (λ x. bit_xor x d) (bit_xor_comm b c) ∙ bit_xor_assoc c b d)
    ∙ sym (bit_xor_assoc a c (bit_xor b d))

pub ruleset xor_laws = (bit_xor-zero, bit_xor_self, bit_xor_cancel)
