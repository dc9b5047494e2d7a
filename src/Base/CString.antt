-- ===== src/Base/CString.antt =====
-- Functions of the C standard library that the source calls, on texts as lists of bytes.
use Prim.Native.Nat.{ℕ, ◌+◌, ◌-◌, ◌*◌, ◌%◌, ◌^◌}
use mathlib.Core.Bool.{Bool, true, false, ◌&&◌, ◌||◌}
use mathlib.Core.List.{List, [], ◌∷◌}
use mathlib.Core.Option.{Option, none, some}
use tiny_projects_and_tools.Base.Tests.{leb, ◌==◌, if◌then◌else◌}

-- `isspace`: blank, and the codes from tab to carriage return.
unfoldable pub is_space : ℕ → Bool
is_space c = c == 32 || (leb 9 c && leb c 13)

unfoldable pub is_digit : ℕ → Bool
is_digit c = leb 48 c && leb c 57

unfoldable pub to_lower : ℕ → ℕ
to_lower c = if leb 65 c && leb c 90 then c + 32 else c

-- Whether a text begins with another, and whether it holds it: `strstr(s, t) != NULL`.
unfoldable pub starts_with : List ℕ → List ℕ → Bool
starts_with [] s = true
starts_with (d ∷ t) [] = false
starts_with (d ∷ t) (c ∷ s) = c == d && starts_with t s

unfoldable pub strstr : List ℕ → List ℕ → Bool
unfolding starts_with
strstr [] t = starts_with t []
strstr (c ∷ s) t = starts_with t (c ∷ s) || strstr s t

unfoldable pub lower : List ℕ → List ℕ
unfolding to_lower
lower [] = []
lower (c ∷ s) = to_lower c ∷ lower s

-- The text before the first byte of a set.
unfoldable pub until : (ℕ → Bool) → List ℕ → List ℕ
until stop [] = []
until stop (c ∷ s) = if stop c then [] else c ∷ until stop s

-- A text in memory ends before its first 0.
unfoldable pub c_string : List ℕ → List ℕ
unfolding until
c_string s = until (λ c. c == 0) s

-- `strcasestr(s, t) != NULL`, which looks at `s` up to its first 0.
unfoldable pub strcasestr : List ℕ → List ℕ → Bool
unfolding strstr lower c_string
strcasestr s t = strstr (lower (c_string s)) (lower t)

-- `strchr(s, c)`: the text from the first `c` on.
unfoldable pub strchr : List ℕ → ℕ → Option (List ℕ)
strchr [] c = none
strchr (d ∷ s) c = if d == c then some (d ∷ s) else strchr s c

-- The text from the first byte of a set on.
unfoldable pub from : (ℕ → Bool) → List ℕ → List ℕ
from stop [] = []
from stop (c ∷ s) = if stop c then c ∷ s else from stop s

-- `atoi` as a sign and a magnitude. A number that does not fit is undefined in C; the C library cuts
-- it to the width of the variable, as `to_unsigned` does.
pub record Integer : Type 0 where
  pub negative : Bool
  pub magnitude : ℕ

unfoldable pub digits_value : ℕ → List ℕ → ℕ
unfolding is_digit
digits_value acc [] = acc
digits_value acc (c ∷ s) = elim (is_digit c) [
  | true ↦ digits_value (acc * 10 + (c - 48)) s
  | false ↦ acc
]

unfoldable pub signed_value : List ℕ → Integer
unfolding digits_value
signed_value [] = record { negative = false; magnitude = 0 }
signed_value (c ∷ s) =
    if c == 45
    then record { negative = true; magnitude = digits_value 0 s }
    else if c == 43
    then record { negative = false; magnitude = digits_value 0 s }
    else record { negative = false; magnitude = digits_value 0 (c ∷ s) }

unfoldable pub skip_space : List ℕ → List ℕ
unfolding is_space
skip_space [] = []
skip_space (c ∷ s) = if is_space c then skip_space s else c ∷ s

unfoldable pub atoi : List ℕ → Integer
unfolding signed_value skip_space
atoi s = signed_value (skip_space s)

-- The conversion to an unsigned integer of `w` bits.
unfoldable pub to_unsigned : ℕ → Integer → ℕ
to_unsigned w i = if i.negative then (2 ^ w - i.magnitude % 2 ^ w) % 2 ^ w else i.magnitude % 2 ^ w
