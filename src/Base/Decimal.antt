-- ===== src/Base/Decimal.antt =====
-- `printf` of an integer of 32 bits. An `int` is kept as its bit pattern, a number below 2 ^ 32.
use tiny_projects_and_tools.Base.Tests.{ltb, if◌then◌else◌}
use Prim.Native.Nat.{ℕ, zero, suc, ◌+◌, ◌-◌, ◌/◌, ◌%◌, ◌^◌}
use mathlib.Core.List.{List, [], ◌∷◌}
use mathlib.Core.Bool.{Bool, ◌&&◌}

-- The digits of `n` in front of `acc`, at most `rounds` of them.
unfoldable pub decimal_loop : ℕ → ℕ → List ℕ → List ℕ
decimal_loop zero n acc = acc
decimal_loop (suc rounds) n acc =
    let rest = decimal_loop rounds (n / 10) ((48 + n % 10) ∷ acc) in
    if ltb n 10 then (48 + n) ∷ acc else rest

-- `%u`: a number below 2 ^ 32 has ten digits at most.
unfoldable pub print_unsigned : ℕ → List ℕ
unfolding decimal_loop
print_unsigned n = decimal_loop 10 n []

-- `%d`.
unfoldable pub print_int : ℕ → List ℕ
unfolding print_unsigned
print_int n = if ltb n (2 ^ 31) then print_unsigned n else 45 ∷ print_unsigned (2 ^ 32 - n)

-- `n > 0` for an `int`.
abbrev pub is_positive : ℕ → Bool
is_positive n = ltb 0 n && ltb n (2 ^ 31)
