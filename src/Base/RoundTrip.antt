-- ===== src/Base/RoundTrip.antt =====
-- `printf` of a number and `atoi`.
use Prim.Native.Nat.{ℕ, zero, suc, ◌+◌, ◌-◌, ◌*◌, ◌/◌, ◌%◌, ◌^◌, ◌<◌, ◌≤◌}
use mathlib.Core.Path.{◌≡◌, refl, sym, ap, subst, ◌∙◌}
use mathlib.Core.Logic.{◌⊎◌, inl, inr}
use mathlib.Core.Bool.{true, false}
use mathlib.Core.List.{List, [], ◌∷◌}
use native.Mathlib.Omega.{arith}
use tiny_projects_and_tools.Base.Every.{All}
use tiny_projects_and_tools.Base.CString.{
  is_space, is_digit, digits_value, signed_value, skip_space, atoi, to_unsigned,
}
use tiny_projects_and_tools.Base.Decimal.{decimal_loop, print_unsigned, print_int}

digits_value-digit :
    (a d : ℕ) (acc : List ℕ)
    → d < 10
    → digits_value a ((48 + d) ∷ acc) ≡ digits_value (a * 10 + d) acc
unfolding digits_value is_digit
digits_value-digit a d acc h = ground arith

loop_small :
    (rounds n : ℕ) (acc : List ℕ) → n < 10 → decimal_loop (suc rounds) n acc ≡ (48 + n) ∷ acc
unfolding decimal_loop
loop_small rounds n acc h = ground arith

loop_large :
    (rounds n : ℕ) (acc : List ℕ)
    → 10 ≤ n
    → decimal_loop (suc rounds) n acc ≡ decimal_loop rounds (n / 10) ((48 + n % 10) ∷ acc)
unfolding decimal_loop
loop_large rounds n acc h = ground arith

power_step : (r n : ℕ) → n < 10 ^ suc r → n / 10 < 10 ^ r
power_step r n h = omega (arith, h)

decimal_loop-value :
    (rounds n : ℕ) (acc : List ℕ)
    → n < 10 ^ rounds
    → digits_value 0 (decimal_loop rounds n acc) ≡ digits_value n acc
decimal_loop-value zero n acc h =
    unfold decimal_loop in ap (λ k. digits_value k acc) (omega (arith, h))
decimal_loop-value (suc rounds) n acc h = elim (small_or_large) [
  | inl small ↦
      ap (digits_value 0) (loop_small rounds n acc small)
      ∙ digits_value-digit 0 n acc small
      ∙ ap (λ k. digits_value k acc) (omega arith)
  | inr large ↦
      ap (digits_value 0) (loop_large rounds n acc large)
      ∙ decimal_loop-value rounds (n / 10) ((48 + n % 10) ∷ acc) (power_step rounds n h)
      ∙ digits_value-digit (n / 10) (n % 10) acc (omega arith)
      ∙ ap (λ k. digits_value k acc) (omega arith)
]
  where
    small_or_large : (n < 10) ⊎ (10 ≤ n)
    small_or_large = omega arith

-- The first byte of a printed number is a digit.
decimal_loop-head :
    (rounds n : ℕ) (acc : List ℕ)
    → n < 10 ^ suc rounds
    → (c : ℕ) × (s : List ℕ) × (48 ≤ c) × (c ≤ 57) × (decimal_loop (suc rounds) n acc ≡ c ∷ s)
decimal_loop-head zero n acc h =
    (48 + n, acc, omega (arith, h), omega (arith, h), loop_small zero n acc (omega (arith, h)))
decimal_loop-head (suc rounds) n acc h = elim (small_or_large) [
  | inl small ↦ (48 + n, acc, omega arith, omega arith, loop_small (suc rounds) n acc small)
  | inr large ↦
      let (c, s, low, high, e) =
        decimal_loop-head rounds (n / 10) ((48 + n % 10) ∷ acc) (power_step (suc rounds) n h) in
      (c, s, low, high, loop_large (suc rounds) n acc large ∙ e)
]
  where
    small_or_large : (n < 10) ⊎ (10 ≤ n)
    small_or_large = omega arith

signed_value-digit :
    (c : ℕ) (s : List ℕ)
    → 48 ≤ c
    → c ≤ 57
    → atoi (c ∷ s) ≡ record { negative = false; magnitude = digits_value 0 (c ∷ s) }
unfolding atoi skip_space is_space signed_value
signed_value-digit c s h k = ground arith

atoi-minus : (s : List ℕ) → atoi (45 ∷ s) ≡ record { negative = true; magnitude = digits_value 0 s }
unfolding atoi skip_space is_space signed_value
atoi-minus s = refl

print_unsigned-value : (n : ℕ) → n < 2 ^ 32 → digits_value 0 (print_unsigned n) ≡ n
unfolding print_unsigned
print_unsigned-value n h = decimal_loop-value 10 n [] (omega arith) ∙ unfold digits_value in refl

pub atoi-print_unsigned :
    (n : ℕ) → n < 2 ^ 32 → atoi (print_unsigned n) ≡ record { negative = false; magnitude = n }
atoi-print_unsigned n h =
    let (c, s, low, high, e) = decimal_loop-head 9 n [] (omega arith) in
    let e' : print_unsigned n ≡ c ∷ s = unfold print_unsigned in e in
    ap atoi e'
    ∙ signed_value-digit c s low high
    ∙ ap (λ m. record { negative = false; magnitude = m })
        (ap (digits_value 0) (sym e') ∙ print_unsigned-value n h)

print_int-low : (n : ℕ) → n < 2 ^ 31 → print_int n ≡ print_unsigned n
unfolding print_int
print_int-low n h = ground arith

print_int-high : (n : ℕ) → 2 ^ 31 ≤ n → print_int n ≡ 45 ∷ print_unsigned (2 ^ 32 - n)
unfolding print_int
print_int-high n h = ground arith

to_unsigned-plus :
    (n : ℕ) → n < 2 ^ 32 → to_unsigned 32 (record { negative = false; magnitude = n }) ≡ n
unfolding to_unsigned
to_unsigned-plus n h = omega arith

pub to_unsigned-print_unsigned : (n : ℕ) → n < 2 ^ 32 → to_unsigned 32 (atoi (print_unsigned n)) ≡ n
to_unsigned-print_unsigned n h =
    ap (to_unsigned 32) (atoi-print_unsigned n h) ∙ to_unsigned-plus n h

to_unsigned-minus :
    (n : ℕ)
    → 0 < n
    → n < 2 ^ 32
    → to_unsigned 32 (record { negative = true; magnitude = 2 ^ 32 - n }) ≡ n
unfolding to_unsigned
to_unsigned-minus n p h = omega arith

-- C keeps the bits of an `int` through `%d` and `atoi`.
pub to_unsigned-print_int : (n : ℕ) → n < 2 ^ 32 → to_unsigned 32 (atoi (print_int n)) ≡ n
to_unsigned-print_int n h = elim (low_or_high) [
  | inl low ↦
      ap (λ t. to_unsigned 32 (atoi t)) (print_int-low n low)
      ∙ ap (to_unsigned 32) (atoi-print_unsigned n h)
      ∙ to_unsigned-plus n h
  | inr high ↦
      ap (λ t. to_unsigned 32 (atoi t)) (print_int-high n high)
      ∙ ap (to_unsigned 32) (atoi-minus (print_unsigned (2 ^ 32 - n)))
      ∙ ap (λ m. to_unsigned 32 (record { negative = true; magnitude = m }))
          (print_unsigned-value (2 ^ 32 - n) (omega arith))
      ∙ to_unsigned-minus n (omega arith) h
]
  where
    low_or_high : (n < 2 ^ 31) ⊎ (2 ^ 31 ≤ n)
    low_or_high = omega arith

decimal_loop-All :
    (P : ℕ → Type 0) (rounds n : ℕ) (acc : List ℕ)
    → ((c : ℕ) → 48 ≤ c → c ≤ 57 → P c)
    → All P acc
    → All P (decimal_loop rounds n acc)
decimal_loop-All P zero n acc f h = unfold decimal_loop in h
decimal_loop-All P (suc rounds) n acc f h = elim (small_or_large) [
  | inl small ↦
      subst (All P) (sym (loop_small rounds n acc small))
        (f (48 + n) (omega arith) (omega arith), h)
  | inr large ↦ subst (All P) (sym (loop_large rounds n acc large)) (
      decimal_loop-All P rounds (n / 10) ((48 + n % 10) ∷ acc) f
        (f (48 + n % 10) (omega arith) (omega arith), h))
]
  where
    small_or_large : (n < 10) ⊎ (10 ≤ n)
    small_or_large = omega arith

pub print_unsigned-All :
    (P : ℕ → Type 0) (n : ℕ) → ((c : ℕ) → 48 ≤ c → c ≤ 57 → P c) → All P (print_unsigned n)
unfolding print_unsigned
print_unsigned-All P n f = decimal_loop-All P 10 n [] f tt

-- Every byte of a printed `int` is a digit or the minus sign, and there is one.
pub print_int-All :
    (P : ℕ → Type 0) (n : ℕ)
    → n < 2 ^ 32
    → ((c : ℕ) → 48 ≤ c → c ≤ 57 → P c)
    → P 45
    → (c : ℕ) × (s : List ℕ) × (print_int n ≡ c ∷ s) × All P (c ∷ s)
print_int-All P n h f minus = elim (low_or_high) [
  | inl low ↦
      let (c, s, _, _, e) = decimal_loop-head 9 n [] (omega arith) in
      let e' : print_unsigned n ≡ c ∷ s = unfold print_unsigned in e in
      (c, s, print_int-low n low ∙ e', subst (All P) e' (print_unsigned-All P n f))
  | inr high ↦ (
    45,
    print_unsigned (2 ^ 32 - n),
    print_int-high n high,
    (minus, print_unsigned-All P (2 ^ 32 - n) f),
  )
]
  where
    low_or_high : (n < 2 ^ 31) ⊎ (2 ^ 31 ≤ n)
    low_or_high = omega arith
