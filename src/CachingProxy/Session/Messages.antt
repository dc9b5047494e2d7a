-- ===== src/CachingProxy/Session/Messages.antt =====
-- A message that a session (`Web Proxy_C/Proxy with Cache/main.cpp`) reads: a first line, header
-- lines, and what follows.
use tiny_projects_and_tools.Base.{
  ℕ, suc, ◌-◌, ◌≤◌, ◌<◌, ◌≡◌, ◌≢◌, refl, ap, List, [], ◌∷◌, ◌++◌, some, length, length-append,
  length-take, take, drop, All, arith,
}
use tiny_projects_and_tools.CachingProxy.Comm.{
  max_line, Event, arrived, interrupted, failed, Client,
}
use tiny_projects_and_tools.CachingProxy.Comm.Stream.{bytes_of, pending, IsReady}
use tiny_projects_and_tools.CachingProxy.Session.Reading.{arrivals, supply}
use tiny_projects_and_tools.CachingProxy.Session.Requests.{at_least_one}
use tiny_projects_and_tools.CachingProxy.Session.Headers.{HeaderLine, header_text}

-- A first line, header lines and more text stand ready to be read.
pub record Message (c : Client) (front : List ℕ) (lines : List (List ℕ)) (rest : List ℕ)
    : Type 0 where
  pub ready : IsReady c
  pub pends : pending c ≡ front ++ 10 ∷ header_text lines rest
  pub plain : All (λ x. x ≢ 10) front
  pub short : length front < max_line - 1
  pub all : All HeaderLine lines

bytes_of-le-arrivals : (input : List Event) → length (bytes_of input) ≤ arrivals input
unfolding bytes_of arrivals
bytes_of-le-arrivals [] = omega arith
bytes_of-le-arrivals (arrived bs ∷ r) =
    omega (arith, length-append bs (bytes_of r), bytes_of-le-arrivals r)
bytes_of-le-arrivals (interrupted ∷ r) = bytes_of-le-arrivals r
bytes_of-le-arrivals (failed ∷ r) = omega arith

pub pending-le-supply : (c : Client) → length (pending c) ≤ supply c
unfolding pending supply
pending-le-supply c = omega (
  arith,
  length-append (take c.counter (drop c.pos c.buffer)) (bytes_of c.input),
  length-take c.counter (drop c.pos c.buffer),
  bytes_of-le-arrivals c.input,
)

nonempty : (l : List ℕ) (front : List ℕ) → l ≡ front ++ 10 ∷ [] → 0 < length l
nonempty l front e = omega (arith, ap length e, length-append front (10 ∷ []))

lines-le-text :
    (lines : List (List ℕ)) (rest : List ℕ)
    → All HeaderLine lines
    → length lines ≤ length (header_text lines rest)
lines-le-text [] rest all = omega arith
lines-le-text (l ∷ lines) rest all = omega (
  arith,
  length-append l (header_text lines rest),
  nonempty l all.0.front all.0.ends,
  lines-le-text lines rest all.1,
)

pub lines-lt-supply :
    (c : Client) (lines : List (List ℕ)) (rest : List ℕ)
    → All HeaderLine lines
    → pending c ≡ header_text lines rest
    → length lines < suc (supply c)
lines-lt-supply c lines rest all e =
    omega (arith, lines-le-text lines rest all, pending-le-supply c, ap length e)

pub at_least_one-line :
    (front : List ℕ) → at_least_one (some (front ++ 10 ∷ [])) ≡ some (front ++ 10 ∷ [])
unfolding at_least_one
at_least_one-line [] = refl
at_least_one-line (c ∷ front) = refl
