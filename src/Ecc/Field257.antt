-- ===== src/Ecc/Field257.antt =====
-- The arithmetic modulo 257 of `ECC Code/fft_encoder.cpp`, on unsigned integers of 32 bits.
use tiny_projects_and_tools.Base.{ℕ, ◌+◌, ◌-◌, ◌*◌, ◌%◌, ◌^◌, ◌<◌, ◌≡◌, ltb, if◌then◌else◌, arith}

unfoldable pub add257 : ℕ → ℕ → ℕ
add257 a b = (a + b) % 2 ^ 32 % 257

-- The difference as an `int`, and what is returned for one that is not negative, and for one that is.
unfoldable pub difference : ℕ → ℕ → ℕ
difference a b = (a + 2 ^ 32 - b) % 2 ^ 32

unfoldable pub from_difference : ℕ → ℕ
from_difference c = if ltb c (2 ^ 31) then c else (257 + c) % 2 ^ 32

unfoldable pub sub257 : ℕ → ℕ → ℕ
unfolding difference from_difference
sub257 a b = from_difference (difference a b)

unfoldable pub mult257 : ℕ → ℕ → ℕ
mult257 a b = a * b % 2 ^ 32 % 257

-- On numbers below 257 a sum and a difference stay below, and each undoes the other.
pub sub257-add257 :
    (a b : ℕ)
    → a < 257
    → b < 257
    → (add257 a b < 257)
      × (sub257 a b < 257)
      × (sub257 (add257 a b) b ≡ a)
      × (add257 (sub257 a b) b ≡ a)
unfolding add257 sub257
sub257-add257 a b ha hb = ground arith
