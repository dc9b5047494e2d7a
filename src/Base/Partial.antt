-- ===== src/Base/Partial.antt =====
-- A computation that may fail, and that does not: what it returns.
use mathlib.Core.Path.{◌≡◌, refl, sym, subst}
use mathlib.Core.Option.{Option, some}
use mathlib.Core.List.{List, [], ◌∷◌}
use native.Mathlib.Omega.{arith}
use Prim.Native.Nat.{ℕ, zero, suc, ◌<◌}
use tiny_projects_and_tools.Base.Lists.{length, get_elem?, set, length-set}
use tiny_projects_and_tools.Base.Every.{All}
use tiny_projects_and_tools.Base.Vector.{◌>>=◌, store, store-set}

-- `m` succeeds with a value that satisfies `P`.
pub record Succeeds {ℓ κ} {A : Type ℓ} (P : A → Type κ) (m : Option A) : Type (ℓ ⊔ κ) where
  pub value : A
  pub runs : m ≡ some value
  pub holds : P value

pub some-Succeeds {ℓ κ} : {A : Type ℓ} {P : A → Type κ} (a : A) → P a → Succeeds P (some a)
some-Succeeds a h = record { value = a; runs = refl; holds = h }

pub >>=-Succeeds {ℓ κ μ ν} :
    {A : Type ℓ} {B : Type κ} {P : A → Type μ} {Q : B → Type ν} {m : Option A} {f : A → Option B}
    → Succeeds P m
    → ((a : A) → P a → Succeeds Q (f a))
    → Succeeds Q (m >>= f)
>>=-Succeeds {Q} {f} s then = subst (λ o. Succeeds Q (o >>= f)) (sym s.runs) (then s.value s.holds)

pub Succeeds-imp {ℓ κ μ} :
    {A : Type ℓ} {P : A → Type κ} {Q : A → Type μ} {m : Option A}
    → Succeeds P m
    → ((a : A) → P a → Q a)
    → Succeeds Q m
Succeeds-imp s f = record { value = s.value; runs = s.runs; holds = f s.value s.holds }

pub get_elem?-Succeeds {ℓ κ} :
    {A : Type ℓ} {P : A → Type κ} (xs : List A) (i : ℕ)
    → All P xs
    → i < length xs
    → Succeeds P (get_elem? xs i)
get_elem?-Succeeds [] i h lt = absurd (omega arith)
get_elem?-Succeeds (x ∷ xs) zero h lt = some-Succeeds x h.0
get_elem?-Succeeds (x ∷ xs) (suc i) h lt = get_elem?-Succeeds xs i h.1 (omega arith)

All-set {ℓ κ} :
    {A : Type ℓ} (P : A → Type κ) (xs : List A) (i : ℕ) (x : A)
    → All P xs
    → P x
    → All P (set xs i x)
All-set P [] i y h new = tt
All-set P (x ∷ xs) zero y h new = (new, h.1)
All-set P (x ∷ xs) (suc i) y h new = (h.0, All-set P xs i y h.1 new)

pub store-Succeeds {ℓ κ} :
    {A : Type ℓ} {P : A → Type κ} (xs : List A) (i : ℕ) (x : A)
    → All P xs
    → P x
    → i < length xs
    → Succeeds (λ ys. (length ys ≡ length xs) × All P ys) (store xs i x)
store-Succeeds xs i x h new lt = record {
  value = set xs i x;
  runs = store-set xs i x lt;
  holds = (length-set xs i x, All-set _ xs i x h new);
}
