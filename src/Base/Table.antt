-- ===== src/Base/Table.antt =====
-- Statements about every number of a range, checked by evaluation.
use Prim.Native.Nat.{ℕ, zero, suc, ◌+◌, ◌<◌, ◌≤◌}
use mathlib.Core.Path.{◌≡◌, subst}
use mathlib.Core.Logic.{◌⊎◌, inl, inr}
use mathlib.Core.Bool.{Bool, true, ◌&&◌}
use native.Mathlib.Omega.{arith}

-- `test` of `left` numbers from `i` on.
unfoldable pub all_from : (ℕ → Bool) → ℕ → ℕ → Bool
all_from test zero i = true
all_from test (suc left) i = test i && all_from test left (i + 1)

unfoldable pub all_below : ℕ → (ℕ → Bool) → Bool
unfolding all_from
all_below bound test = all_from test bound 0

all_from_sound :
    (test : ℕ → Bool) (left i k : ℕ)
    → all_from test left i ≡ true
    → i ≤ k
    → k < i + left
    → test k ≡ true
unfolding all_from
all_from_sound test zero i k h low high = absurd (omega arith)
all_from_sound test (suc left) i k h low high = elim (here_or_later) [
  | inl here ↦ subst (λ j. test j ≡ true) here (ground (arith, h))
  | inr later ↦ all_from_sound test left (i + 1) k (ground (arith, h)) later (omega arith)
]
  where
    here_or_later : (i ≡ k) ⊎ (i + 1 ≤ k)
    here_or_later = omega arith

pub all_below_sound :
    (bound : ℕ) (test : ℕ → Bool) (k : ℕ) → all_below bound test ≡ true → k < bound → test k ≡ true
unfolding all_below
all_below_sound bound test k h high = all_from_sound test bound 0 k h (omega arith) (omega arith)
