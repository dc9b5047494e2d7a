-- ===== src/MiniShell/Parsing.antt =====
-- The text that `main` of `MiniShell/myShell.cpp` builds from the words of a line, as `parseLine`
-- reads it.
use tiny_projects_and_tools.Base.{
  ℕ, zero, suc, ◌≤◌, ◌≡◌, refl, ap, ◌∙◌, true, false, List, [], ◌∷◌, ◌++◌, some, length,
  length-append, arith, All, Bool-cases, inl, inr, if◌then◌else◌, ◌==◌,
}
use tiny_projects_and_tools.Base.CString.{is_space, skip_space}
use tiny_projects_and_tools.MiniShell.Words.{
  put_byte, take_word, take_words, parse_line, is_redirection, new_buffer,
}

-- A byte that is neither white space nor a backslash, and a word of such bytes.
abbrev pub IsPlain : ℕ → Type 0
IsPlain c = (is_space c ≡ false) × ((c == 92) ≡ false)

abbrev pub IsWord : List ℕ → Type 0
IsWord [] = ⊥
IsWord (c ∷ s) = All IsPlain (c ∷ s)

-- The words without each redirection and its file.
unfoldable pub without_files : List (List ℕ) → List (List ℕ)
unfolding is_redirection
without_files [] = []
without_files (w ∷ []) = if is_redirection w then [] else w ∷ []
without_files (w ∷ file ∷ ws) = elim (is_redirection w) [
  | true ↦ without_files ws
  | false ↦ w ∷ without_files (file ∷ ws)
]

unfoldable joined : List (List ℕ) → List ℕ
joined [] = []
joined (w ∷ ws) = w ++ 32 ∷ joined ws

new_buffer-joined : (ws : List (List ℕ)) → new_buffer ws ≡ joined (without_files ws)
unfolding new_buffer without_files joined
new_buffer-joined [] = refl
new_buffer-joined (w ∷ []) = elim (Bool-cases (is_redirection w)) [
  | inl yes_it_is ↦ rw yes_it_is
  | inr plain ↦ rw plain
]
new_buffer-joined (w ∷ file ∷ ws) = elim (Bool-cases (is_redirection w)) [
  | inl redirects ↦ ground (arith, redirects, new_buffer-joined ws)
  | inr plain ↦ ground (arith, plain, ap (λ t. w ++ 32 ∷ t) (new_buffer-joined (file ∷ ws)))
]

take_word-blank : (rest : List ℕ) → take_word (32 ∷ rest) ≡ some ([], 32 ∷ rest)
unfolding take_word is_space
take_word-blank [] = refl
take_word-blank (r ∷ rest) = refl

pub take_word-step :
    (c d : ℕ) (s : List ℕ) → IsPlain c → take_word (c ∷ d ∷ s) ≡ put_byte c (take_word (d ∷ s))
unfolding take_word
take_word-step c d s h = ground (arith, h.0, h.1)

take_word-plain :
    (w rest : List ℕ) → All IsPlain w → take_word (w ++ 32 ∷ rest) ≡ some (w, 32 ∷ rest)
take_word-plain [] rest h = take_word-blank rest
take_word-plain (c ∷ []) rest h =
    take_word-step c 32 rest h.0 ∙ ap (put_byte c) (take_word-blank rest) ∙ unfold put_byte in refl
take_word-plain (c ∷ d ∷ w) rest h =
    take_word-step c d (w ++ 32 ∷ rest) h.0
    ∙ ap (put_byte c) (take_word-plain (d ∷ w) rest h.1)
    ∙ unfold put_byte in refl

-- Text that begins with a word, and the blank in front of it.
skip_space-joined : (ws : List (List ℕ)) → All IsWord ws → skip_space (joined ws) ≡ joined ws
unfolding skip_space joined
skip_space-joined [] h = refl
skip_space-joined ([] ∷ ws) h = absurd (h.0)
skip_space-joined ((c ∷ w) ∷ ws) h = ground (arith, h.0.0.0)

skip_space-blank : (s : List ℕ) → skip_space (32 ∷ s) ≡ skip_space s
unfolding skip_space is_space
skip_space-blank s = refl

pub take_words-step :
    (rounds c : ℕ) (s w rest : List ℕ) (ws : List (List ℕ))
    → take_word (c ∷ s) ≡ some (w, rest)
    → take_words rounds (skip_space rest) ≡ some ws
    → take_words (suc rounds) (c ∷ s) ≡ some (w ∷ ws)
unfolding take_words
take_words-step rounds c s w rest ws h k = ground (arith, h, k)

joined-cons : (w : List ℕ) (ws : List (List ℕ)) → joined (w ∷ ws) ≡ w ++ 32 ∷ joined ws
unfolding joined
joined-cons w ws = refl

take_words-joined :
    (rounds : ℕ) (ws : List (List ℕ))
    → All IsWord ws
    → length ws ≤ rounds
    → take_words rounds (joined ws) ≡ some ws
take_words-joined rounds [] h enough = unfold joined in unfold take_words in refl
take_words-joined rounds ([] ∷ ws) h enough = absurd (h.0)
take_words-joined zero ((c ∷ w) ∷ ws) h enough = absurd (omega arith)
take_words-joined (suc rounds) ((c ∷ w) ∷ ws) h enough =
    ap (take_words (suc rounds)) (joined-cons (c ∷ w) ws)
    ∙ take_words-step rounds c (w ++ 32 ∷ joined ws) (c ∷ w) (32 ∷ joined ws) ws
        (take_word-plain (c ∷ w) (joined ws) h.0)
        (ap (take_words rounds) (skip_space-blank (joined ws) ∙ skip_space-joined ws h.1)
          ∙ take_words-joined rounds ws h.1 (omega arith))

joined-long : (ws : List (List ℕ)) → length ws ≤ length (joined ws)
unfolding joined
joined-long [] = omega arith
joined-long (w ∷ ws) = omega (arith, joined-long ws, length-append w (32 ∷ joined ws))

without_files-All : (ws : List (List ℕ)) → All IsWord ws → All IsWord (without_files ws)
unfolding without_files
without_files-All [] h = tt
without_files-All (w ∷ []) h = elim (Bool-cases (is_redirection w)) [
  | inl redirects ↦ rw redirects tt
  | inr plain ↦ rw plain h
]
without_files-All (w ∷ file ∷ ws) h = elim (Bool-cases (is_redirection w)) [
  | inl redirects ↦ ground (arith, redirects, without_files-All ws h.1.1)
  | inr plain ↦ ground (arith, plain, h.0, without_files-All (file ∷ ws) h.1)
]

-- From words without white space and backslashes, of which none is empty, the command gets those that
-- are neither a redirection nor its file, in order.
pub parse_line-new_buffer :
    (ws : List (List ℕ)) → All IsWord ws → parse_line (new_buffer ws) ≡ some (without_files ws)
unfolding parse_line
parse_line-new_buffer ws h =
    let kept = without_files-All ws h in
    ap (λ t. take_words (length t) (skip_space t)) (new_buffer-joined ws)
    ∙ ap (take_words (length (joined (without_files ws))))
        (skip_space-joined (without_files ws) kept)
    ∙ take_words-joined (length (joined (without_files ws))) (without_files ws) kept
        (joined-long (without_files ws))
