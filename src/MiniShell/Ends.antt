-- ===== src/MiniShell/Ends.antt =====
-- How `parseLine` (`MiniShell/myShell.cpp`) goes through its text: what its loops leave of it, and
-- the blanks that `main` puts behind the words.
use tiny_projects_and_tools.Base.{
  ℕ, zero, suc, ◌≤◌, ◌≡◌, ◌⊎◌, refl, sym, ap, subst, ◌∙◌, true, false, List, [], ◌∷◌, ◌++◌, Option,
  some, length, arith, Bool-cases, inl, inr, if◌then◌else◌, ◌==◌,
}
use tiny_projects_and_tools.Base.CString.{is_space, skip_space}
use tiny_projects_and_tools.MiniShell.Words.{
  put_byte, take_word, take_words, parse_line, is_redirection, new_buffer, split_words,
}
use tiny_projects_and_tools.MiniShell.Dirs.{Shell}
use tiny_projects_and_tools.MiniShell.Builtins.{dispatch, turn}
use tiny_projects_and_tools.MiniShell.Parsing.{take_word-step, take_words-step}

-- A text that is empty or ends with a blank.
abbrev pub Ends : List ℕ → Type 0
Ends [] = Unit
Ends (c ∷ []) = c ≡ 32
Ends (c ∷ d ∷ s) = Ends (d ∷ s)

Ends-tail : (c : ℕ) (s : List ℕ) → Ends (c ∷ s) → Ends s
Ends-tail c [] h = tt
Ends-tail c (d ∷ s) h = h

Ends-append : (w s : List ℕ) → Ends (32 ∷ s) → Ends (w ++ 32 ∷ s)
Ends-append [] s h = h
Ends-append (c ∷ []) s h = h
Ends-append (c ∷ d ∷ w) s h = Ends-append (d ∷ w) s h

Ends-blank : (s : List ℕ) → Ends s → Ends (32 ∷ s)
Ends-blank [] h = refl
Ends-blank (c ∷ s) h = h

new_buffer-Ends : (ws : List (List ℕ)) → Ends (new_buffer ws)
unfolding new_buffer
new_buffer-Ends [] = tt
new_buffer-Ends (w ∷ []) = elim (Bool-cases (is_redirection w)) [
  | inl redirects ↦ rw redirects tt
  | inr plain ↦ rw plain (Ends-append w [] refl)
]
new_buffer-Ends (w ∷ file ∷ ws) = elim (Bool-cases (is_redirection w)) [
  | inl redirects ↦ ground (arith, redirects, new_buffer-Ends ws)
  | inr plain ↦ ground (
    arith,
    plain,
    Ends-append w (new_buffer (file ∷ ws))
        (Ends-blank (new_buffer (file ∷ ws)) (new_buffer-Ends (file ∷ ws))),
  )
]

-- How much of a text a word may leave.
unfoldable room : List ℕ → ℕ
room [] = 0
room (c ∷ s) = if is_space c then suc (length s) else length s

record Reads (s : List ℕ) : Type 0 where
  word : List ℕ
  rest : List ℕ
  reads : take_word s ≡ some (word, rest)
  ends : Ends rest
  short : length rest ≤ room s

room-le : (s : List ℕ) → room s ≤ length s
unfolding room
room-le [] = omega arith
room-le (c ∷ s) = ground arith

module _ (c d : ℕ) (s : List ℕ) where
  take_word-space : is_space c ≡ true → take_word (c ∷ d ∷ s) ≡ some ([], c ∷ d ∷ s)
  unfolding take_word
  take_word-space h = ground (arith, h)

  take_word-byte :
      (word rest : List ℕ)
      → is_space c ≡ false
      → (c == 92) ≡ false
      → take_word (d ∷ s) ≡ some (word, rest)
      → take_word (c ∷ d ∷ s) ≡ some (c ∷ word, rest)
  take_word-byte word rest h k one =
      take_word-step c d s (h, k) ∙ ap (put_byte c) one ∙ unfold put_byte in refl

  take_word-escape :
      (word rest : List ℕ)
      → is_space c ≡ false
      → (c == 92) ≡ true
      → take_word s ≡ some (word, rest)
      → take_word (c ∷ d ∷ s) ≡ some (if d == 32 then 32 ∷ word else 92 ∷ d ∷ word, rest)
  unfolding take_word put_byte
  take_word-escape word rest h k two = ground (arith, h, k, two)

  room-space : is_space c ≡ true → length (c ∷ d ∷ s) ≤ room (c ∷ d ∷ s)
  unfolding room
  room-space h = ground (arith, h)

  room-byte : is_space c ≡ false → room (c ∷ d ∷ s) ≡ length (d ∷ s)
  unfolding room
  room-byte h = ground (arith, h)

  take_word-Reads_cons : Ends (d ∷ s) → Reads (d ∷ s) → Reads s → Reads (c ∷ d ∷ s)
  take_word-Reads_cons h one two = elim (Bool-cases (is_space c)) [
    | inl space ↦ record {
      word = [];
      rest = c ∷ d ∷ s;
      reads = take_word-space space;
      ends = h;
      short = room-space space;
    }
    | inr other ↦ elim (Bool-cases (c == 92)) [
      | inl escapes ↦ record {
        word = if d == 32 then 32 ∷ two.word else 92 ∷ d ∷ two.word;
        rest = two.rest;
        reads = take_word-escape two.word two.rest other escapes two.reads;
        ends = two.ends;
        short = omega (arith, two.short, room-le s, room-byte other);
      }
      | inr plain ↦ record {
        word = c ∷ one.word;
        rest = one.rest;
        reads = take_word-byte one.word one.rest other plain one.reads;
        ends = one.ends;
        short = omega (arith, one.short, room-le (d ∷ s), room-byte other);
      }
    ]
  ]

take_word-Reads : (s : List ℕ) → Ends s → Reads s
take_word-Reads [] h = record {
  word = [];
  rest = [];
  reads = unfold take_word in refl;
  ends = tt;
  short = omega arith;
}
take_word-Reads (c ∷ []) h = record {
  word = [];
  rest = c ∷ [];
  reads =
      subst (λ b. take_word (b ∷ []) ≡ some ([], b ∷ [])) (sym h)
        (unfold take_word is_space in refl);
  ends = h;
  short = subst (λ b. 1 ≤ room (b ∷ [])) (sym h) (unfold room is_space in omega arith);
}
take_word-Reads (c ∷ d ∷ s) h =
    take_word-Reads_cons c d s h (take_word-Reads (d ∷ s) h) (take_word-Reads s (Ends-tail d s h))

skip_space-Ends : (s : List ℕ) → Ends s → Ends (skip_space s) × (length (skip_space s) ≤ length s)
unfolding skip_space
skip_space-Ends [] h = (tt, omega arith)
skip_space-Ends (c ∷ s) h = elim (Bool-cases (is_space c)) [
  | inl space ↦
      let (ends, short) = skip_space-Ends s (Ends-tail c s h) in rw space (ends, omega arith)
  | inr other ↦ rw other (h, omega arith)
]

skip_space-head : (s t : List ℕ) (c : ℕ) → skip_space s ≡ c ∷ t → is_space c ≡ false
unfolding skip_space
skip_space-head [] t c h = cc
skip_space-head (b ∷ s) t c h = elim (Bool-cases (is_space b)) [
  | inl space ↦ skip_space-head s t c (ground (arith, space, h))
  | inr other ↦ ground (arith, other, h)
]

room-head : (c : ℕ) (t : List ℕ) → is_space c ≡ false → room (c ∷ t) ≡ length t
unfolding room
room-head c t h = ground (arith, h)

list_cases : (t : List ℕ) → (t ≡ []) ⊎ ((c : ℕ) × (u : List ℕ) × (t ≡ c ∷ u))
list_cases [] = inl refl
list_cases (c ∷ u) = inr (c, u, refl)

no_words : (rounds : ℕ) → take_words rounds [] ≡ some []
unfolding take_words
no_words rounds = refl

-- With as many rounds as the text is long, the words are read.
take_words-total :
    (rounds : ℕ) (s : List ℕ)
    → Ends s
    → length s ≤ rounds
    → (ws : List (List ℕ)) × (take_words rounds (skip_space s) ≡ some ws)
take_words-total zero [] h enough = ([], unfold take_words skip_space in refl)
take_words-total zero (c ∷ s) h enough = absurd (omega arith)
take_words-total (suc rounds) s h enough = elim (list_cases (skip_space s)) [
  | inl e ↦ ([], ap (take_words (suc rounds)) e ∙ no_words (suc rounds))
  | inr (c, u, e) ↦
      let (ends, short) = skip_space-Ends s h in
      let r = take_word-Reads (c ∷ u) (subst Ends e ends) in
      let left : length r.rest ≤ rounds =
        omega (arith, r.short, room-head c u (skip_space-head s u c e), ap length e, short) in
      let (ws, later) = take_words-total rounds r.rest r.ends left in
      (
        r.word ∷ ws,
        ap (take_words (suc rounds)) e ∙ take_words-step rounds c u r.word r.rest ws r.reads later,
      )
]

-- Every line that is typed in gets a turn: `parseLine` ends, and no backslash makes it read past its
-- text.
pub turn_safe :
    (chdir : List ℕ → List ℕ → Option (List ℕ)) (home : List ℕ) (s : Shell) (line : List ℕ)
    → (words : List (List ℕ)) × (parse_line (new_buffer (split_words line)) ≡ some words)
      × (turn chdir home s line ≡ dispatch chdir home s (split_words line) words)
unfolding turn
turn_safe chdir home s line =
    let (words, parsed) =
      take_words-total (length (new_buffer (split_words line))) (new_buffer (split_words line))
        (new_buffer-Ends (split_words line)) (omega arith) in
    (words, unfold parse_line in parsed, unfold parse_line in ground (arith, parsed))
