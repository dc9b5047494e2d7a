-- ===== src/MiniShell/Rounds.antt =====
-- The scan of the words of `MiniShell/myShell.cpp` ends.
use tiny_projects_and_tools.Base.{
  ℕ, zero, suc, ◌+◌, ◌-◌, ◌≤◌, ◌<◌, ◌≡◌, ◌≢◌, ◌⊎◌, inl, inr, refl, true, List, [], ◌∷◌, ◌++◌,
  Option, none, some, Bool-cases, get_elem?, take, drop, length, length-append, length-take,
  length-drop, arith,
}
use tiny_projects_and_tools.MiniShell.Child.{
  Words, Effect, PipeEnd, fork_failed, waited, not_waited, ChildEnd, no_round, flag_of, is_pipe,
  emit, scan, rescans, child,
}

abbrev Ends : List Effect × ChildEnd → Type 0
Ends r = r.1 ≢ no_round

some_lt : {A : Type 0} (xs : List A) (j : ℕ) (x : A) → get_elem? xs j ≡ some x → j < length xs
some_lt [] j x h = cc
some_lt (y ∷ xs) zero x h = omega arith
some_lt (y ∷ xs) (suc j) x h = let t = some_lt xs j x h in omega (arith, t)

option_cases : {A : Type 0} (o : Option A) → (o ≡ none) ⊎ ((x : A) × (o ≡ some x))
option_cases none = inl refl
option_cases (some x) = inr (x, refl)

rescans-le : (m n : ℕ) → m ≤ n → rescans m ≤ rescans n
unfolding rescans
rescans-le zero zero h = omega arith
rescans-le (suc m) zero h = absurd (omega arith)
rescans-le m (suc n) h = elim (last) [
  | inl before ↦ let t = rescans-le m n before in omega (arith, t)
  | inr here ↦ rw here (omega arith)
]
  where
    last : (m ≤ n) ⊎ (m ≡ suc n)
    last = omega arith

-- The words that are left once some are taken out need fewer rounds.
fewer : (n m j left : ℕ) → j < n → m < n → n - j + rescans n < suc left → m - 1 + rescans m < left
unfolding rescans
fewer zero m j left hj hm h = absurd (omega arith)
fewer (suc n) m j left hj hm h = let t = rescans-le m n (omega arith) in omega (arith, t)

-- A scan with enough rounds for `j` and `args`.
abbrev Again : ℕ → Type 0
Again rounds =
    (j : ℕ) (args cmd : Words) (ends : List PipeEnd)
    → length args - j + rescans (length args) < rounds
    → Ends (scan rounds j args cmd ends)

pipe-Ends :
    (rounds j : ℕ) (args cmd : Words) (w : List ℕ)
    → Again rounds
    → get_elem? args j ≡ some w
    → flag_of w ≡ none
    → is_pipe w ≡ true
    → length args - j + rescans (length args) < suc rounds
    → (ends : List PipeEnd) → Ends (scan (suc rounds) j args cmd ends)
unfolding scan emit
pipe-Ends rounds j args cmd w again e ef ep h [] = rw (e, ef, ep, scan) (λ q. cc)
pipe-Ends rounds j args cmd w again e ef ep h (fork_failed ∷ more) = rw (e, ef, ep, scan) (λ q. cc)
pipe-Ends rounds j args cmd w again e ef ep h (waited ∷ more) =
    let lt = some_lt args j w e in
    let shorter : length (drop (j + 1) args) < length args =
      omega (arith, lt, length-drop (j + 1) args) in
    rw (e, ef, ep, scan)
      (again 1 (drop (j + 1) args) (drop (j + 1) args) more
        (fewer (length args) _ j rounds lt shorter h))
pipe-Ends rounds j args cmd w again e ef ep h (not_waited ∷ more) =
    let lt = some_lt args j w e in
    rw (e, ef, ep, scan) (again (j + 1) args args more (omega (arith, lt)))

scan-Ends :
    (rounds j : ℕ) (args cmd : Words) (ends : List PipeEnd)
    → length args - j + rescans (length args) < rounds
    → Ends (scan rounds j args cmd ends)
unfolding scan emit
scan-Ends zero j args cmd ends h = absurd (omega arith)
scan-Ends (suc rounds) j args cmd ends h = elim (option_cases (get_elem? args j)) [
  | inl e ↦ rw (e, scan) (λ q. cc)
  | inr (w, e) ↦
      let lt = some_lt args j w e in
      elim (option_cases (flag_of w)) [
        | inr (flag, ef) ↦ elim (option_cases (get_elem? args (j + 1))) [
          | inl en ↦ rw (e, ef, en, scan) (λ q. cc)
          | inr (file, en) ↦
              rw (e, ef, en, scan)
                (scan-Ends rounds 1 (take j args ++ drop (j + 2) args) cmd ends
                  (fewer (length args) _ j rounds lt (taken lt) h))
        ]
        | inl ef ↦ elim (Bool-cases (is_pipe w)) [
          | inr ep ↦
              rw (e, ef, ep, scan) (scan-Ends rounds (j + 1) args cmd ends (omega (arith, lt)))
          | inl ep ↦ pipe-Ends rounds j args cmd w (scan-Ends rounds) e ef ep h ends
        ]
      ]
]
  where
    taken : j < length args → length (take j args ++ drop (j + 2) args) < length args
    taken lt = omega (
      arith,
      length-append (take j args) (drop (j + 2) args),
      length-take j args,
      length-drop (j + 2) args,
    )

-- However the pipes of a line go, the scan of its words ends: the rounds are enough.
pub child-Ends : (args cmd : Words) (ends : List PipeEnd) → (child args cmd ends).1 ≢ no_round
unfolding child
child-Ends args cmd ends =
    scan-Ends (suc (length args) + rescans (length args)) 0 args cmd ends (omega arith)
