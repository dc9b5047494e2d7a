-- ===== src/SimpleProxy/Headers.antt =====
-- The header lines that `webTalk` of `Web Proxy_C/simplified version/proxy.c` passes on, beside a
-- description of `strcasecmp` letter by letter.
use tiny_projects_and_tools.Base.{
  ℕ, ◌+◌, ◌≤◌, ◌≡◌, ◌≢◌, ◌⊎◌, inl, inr, refl, true, false, List, [], ◌∷◌, ◌++◌, All, arith, ◌==◌,
  str_eq, str_eq_iff, Bool-cases,
}
use tiny_projects_and_tools.Base.CString.{to_lower, lower, c_string}
use tiny_projects_and_tools.SimpleProxy.Session.{
  pass_line, pass_headers, keep_alive_line, close_info, end_line,
}

-- The same byte, or the small and the capital of one letter.
abbrev pub SameLetter : ℕ → ℕ → Type 0
SameLetter c d =
    (c ≡ d) ⊎ ((65 ≤ c) × (c ≤ 90) × (d ≡ c + 32)) ⊎ ((65 ≤ d) × (d ≤ 90) × (c ≡ d + 32))

abbrev pub SameText : List ℕ → List ℕ → Type 0
SameText [] [] = Unit {0}
SameText [] (d ∷ t) = ⊥
SameText (c ∷ s) [] = ⊥
SameText (c ∷ s) (d ∷ t) = SameLetter c d × SameText s t

same_letter : (c d : ℕ) → (to_lower c == to_lower d) ≡ true → SameLetter c d
unfolding to_lower
same_letter c d h = ground (arith, h)

same_lower : (c d : ℕ) → SameLetter c d → (to_lower c == to_lower d) ≡ true
unfolding to_lower
same_lower c d (inl e) = ground (arith, e)
same_lower c d (inr (inl (a, b, e))) = ground (arith, a, b, e)
same_lower c d (inr (inr (a, b, e))) = ground (arith, a, b, e)

str_eq-SameText : (s t : List ℕ) → str_eq (lower s) (lower t) ≡ true → SameText s t
unfolding str_eq lower
str_eq-SameText [] [] h = tt
str_eq-SameText [] (d ∷ t) h = absurd (cc h)
str_eq-SameText (c ∷ s) [] h = absurd (cc h)
str_eq-SameText (c ∷ s) (d ∷ t) h =
    (same_letter c d (ground (arith, h)), str_eq-SameText s t (ground (arith, h)))

SameText-str_eq : (s t : List ℕ) → SameText s t → str_eq (lower s) (lower t) ≡ true
unfolding str_eq lower
SameText-str_eq [] [] h = refl
SameText-str_eq [] (d ∷ t) h = elim h [ ]
SameText-str_eq (c ∷ s) [] h = elim h [ ]
SameText-str_eq (c ∷ s) (d ∷ t) h = ground (arith, same_lower c d h.0, SameText-str_eq s t h.1)

-- A header line and what is sent for it: "Connection: close" for a "Connection: keep-alive" in
-- whichever case, and any other line as it is.
abbrev pub PassedAs : List ℕ → List ℕ → Type 0
PassedAs line out =
    (SameText (c_string line) keep_alive_line × (out ≡ close_info))
    ⊎ ((SameText (c_string line) keep_alive_line → ⊥) × (out ≡ line))

abbrev pub Passed : List (List ℕ) → List (List ℕ) → Type 0
Passed [] [] = Unit {0}
Passed [] (o ∷ outs) = ⊥
Passed (l ∷ lines) [] = ⊥
Passed (l ∷ lines) (o ∷ outs) = PassedAs l o × Passed lines outs

pass_line-PassedAs : (line : List ℕ) → PassedAs line (pass_line line)
unfolding pass_line
pass_line-PassedAs line =
    elim (Bool-cases (str_eq (lower (c_string line)) (lower keep_alive_line))) [
      | inl asks ↦ inl (str_eq-SameText (c_string line) keep_alive_line asks, rw asks refl)
      | inr other ↦ inr (
        λ same. absurd (cc (other, SameText-str_eq (c_string line) keep_alive_line same)),
        rw other refl,
      )
    ]

-- A line that is not the blank one.
abbrev pub IsHeader : List ℕ → Type 0
IsHeader line = c_string line ≢ end_line

str_eq_no : (s t : List ℕ) → s ≢ t → str_eq s t ≡ false
str_eq_no s t h = elim (Bool-cases (str_eq s t)) [
  | inl same ↦ absurd (h ((str_eq_iff s t).0 same))
  | inr other ↦ other
]

-- The header lines up to the blank line are passed on, each in its turn, and the blank line, and
-- nothing behind it. A line that is `Connection: keep-alive` up to the case of its letters is
-- passed on as `Connection: close`, and any other line as it is.
pub pass_headers-blank :
    (lines later : List (List ℕ))
    → All IsHeader lines
    → (outs : List (List ℕ)) × Passed lines outs
      × (pass_headers (lines ++ end_line ∷ later) ≡ outs ++ end_line ∷ [])
unfolding pass_headers c_string
pass_headers-blank [] later h = ([], tt, ground (arith, (str_eq_iff end_line end_line).1 refl))
pass_headers-blank (l ∷ lines) later h =
    let (outs, passed, e) = pass_headers-blank lines later h.1 in
    (
      pass_line l ∷ outs,
      (pass_line-PassedAs l, passed),
      ground (arith, str_eq_no (c_string l) end_line h.0, e),
    )
