-- ===== src/CachingProxy/Session/Fuel.antt =====
-- That the loops of a session (`Web Proxy_C/Proxy with Cache/main.cpp`) have enough fuel.
use tiny_projects_and_tools.Base.{
  ℕ, zero, suc, ◌+◌, ◌≤◌, ◌<◌, ◌≡◌, sym, ap, subst, Bool, true, false, List, [], ◌∷◌, Option, none,
  some, if◌then◌else◌, arith,
}
use tiny_projects_and_tools.CachingProxy.Header.{Header, append}
use tiny_projects_and_tools.CachingProxy.Comm.{max_line, readlinex, Outcome, sent, error, waiting}
use tiny_projects_and_tools.CachingProxy.Session.World.{
  World, Result, ok, ended, closed, stuck, fault, out_of_fuel, Action, pure, or_close, or_stop,
  ◌>>=◌, continue, written,
}
use tiny_projects_and_tools.CachingProxy.Session.Reading.{supply}
use tiny_projects_and_tools.CachingProxy.Session.Supply.{count, readlinex-Uses}
use tiny_projects_and_tools.CachingProxy.Session.Requests.{is_blank_line, read_header}
use tiny_projects_and_tools.CachingProxy.Session.Headers.{Side}

-- Not the end that the source does not have.
abbrev pub Fueled : {A : Type 0} → Result A → Type 0
Fueled (ok a) = Unit {0}
Fueled (ended closed) = Unit {0}
Fueled (ended stuck) = Unit {0}
Fueled (ended fault) = Unit {0}
Fueled (ended out_of_fuel) = ⊥

abbrev pub Safe : {A : Type 0} → Action A → Type 0
Safe m = (w : World) → Fueled (m w).0

module _ {A B : Type 0} where
  pub continue-Fueled :
      (p : Result A × World) (f : A → Action B)
      → Fueled p.0
      → ((a : A) → Safe (f a))
      → Fueled (continue p f).0
  continue-Fueled (ok a, w) f s t = t a w
  continue-Fueled (ended closed, w) f s t = tt
  continue-Fueled (ended stuck, w) f s t = tt
  continue-Fueled (ended fault, w) f s t = tt
  continue-Fueled (ended out_of_fuel, w) f s t = s

  pub >>=-Safe :
      (m : Action A) (f : A → Action B) → Safe m → ((a : A) → Safe (f a)) → Safe (m >>= f)
  >>=-Safe m f s t w = continue-Fueled (m w) f (s w) t

pub or_close-Safe : {A : Type 0} (o : Option A) → Safe (or_close o)
or_close-Safe none w = tt
or_close-Safe (some a) w = tt

pub or_fault-Safe : {A : Type 0} (o : Option A) → Safe (or_stop o fault)
or_fault-Safe none w = tt
or_fault-Safe (some a) w = tt

pub written-Fueled : (o : Outcome) (size : ℕ) → Fueled (written o size).0
unfolding written
written-Fueled (sent out) size = tt
written-Fueled (error out) size = tt
written-Fueled (waiting out) size = tt

pub if-Safe : {A : Type 0} (b : Bool) (m n : Action A) → Safe m → Safe n → Safe (if b then m else n)
if-Safe true m n s t = s
if-Safe false m n s t = t

choice-Fueled :
    {A : Type 0} (b : Bool) (m n : Action A) (w : World)
    → Fueled (m w).0
    → Fueled (n w).0
    → Fueled ((elim b as (λ _. Action A) [ true ↦ m | false ↦ n ]) w).0
choice-Fueled true m n w s t = s
choice-Fueled false m n w s t = t

module _ {line : Action (Option (List ℕ))} (s : Side line) where
  after_line : ℕ → Header → Option (List ℕ) → Action (Header × Option (List ℕ))
  after_line fuel h got = elim got [
    | none ↦ pure (h, none)
    | some [] ↦ pure (h, some [])
    | some (b ∷ l) ↦ elim (is_blank_line (b ∷ l)) [
      | true ↦ pure (append h (b ∷ l), some (b ∷ l))
      | false ↦ read_header line fuel (append h (b ∷ l))
    ]
  ]

  read_header-step :
      (fuel : ℕ) (h : Header) (w : World)
      → read_header line (suc fuel) h w
        ≡ after_line fuel h (readlinex (s.side w) max_line).1 (s.after w)
  unfolding read_header after_line
  read_header-step fuel h w = ap (λ p. continue p (after_line fuel h)) (s.takes w)

  after_line-Fueled :
      (fuel : ℕ) (h : Header) (w : World) (got : Option (List ℕ))
      → ((h' : Header) → supply (s.side w) < fuel → Fueled (read_header line fuel h' w).0)
      → count got + supply (s.side w) ≤ fuel
      → Fueled (after_line fuel h got w).0
  unfolding after_line
  after_line-Fueled fuel h w none again u = tt
  after_line-Fueled fuel h w (some []) again u = tt
  after_line-Fueled fuel h w (some (b ∷ l)) again u =
      choice-Fueled (is_blank_line (b ∷ l)) _ _ w tt (again (append h (b ∷ l)) (omega arith))

  -- Every line uses up what the client can still send, so a header ends.
  pub read_header-Fueled :
      (fuel : ℕ) (h : Header) (w : World)
      → supply (s.side w) < fuel
      → Fueled (read_header line fuel h w).0
  read_header-Fueled zero h w f = absurd (omega arith)
  read_header-Fueled (suc fuel) h w f =
      subst (λ r. Fueled r.0) (sym (read_header-step fuel h w))
        (after_line-Fueled fuel h (s.after w) (readlinex (s.side w) max_line).1
          (λ h' g. read_header-Fueled fuel h' (s.after w) g)
          (rw (s.side_after w) (omega (arith, (readlinex-Uses (s.side w) max_line).1))))
