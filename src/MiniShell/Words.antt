-- ===== src/MiniShell/Words.antt =====
-- The words of a command line (`parseLine`, and the loops of `main`, of `MiniShell/myShell.cpp`).
use tiny_projects_and_tools.Base.{
  ℕ, zero, suc, Bool, true, false, ◌||◌, List, [], ◌∷◌, ◌++◌, Option, none, some, ◌==◌,
  if◌then◌else◌, ascii, str_eq, ◌>>=◌, length,
}
use tiny_projects_and_tools.Base.CString.{is_space, skip_space, until, from}

-- A byte in front of the word that is read next.
unfoldable pub put_byte : ℕ → Option (List ℕ × List ℕ) → Option (List ℕ × List ℕ)
put_byte c none = none
put_byte c (some (word, rest)) = some (c ∷ word, rest)

-- The inner loop of `parseLine`: a word and the text behind it. A backslash keeps the blank behind it
-- in the word; one at the end of the text reads past it, which is `none`.
unfoldable pub take_word : List ℕ → Option (List ℕ × List ℕ)
unfolding put_byte
take_word [] = some ([], [])
take_word (c ∷ []) = elim (is_space c) [
  | true ↦ some ([], c ∷ [])
  | false ↦ elim (c == 92) [ true ↦ none | false ↦ some (c ∷ [], []) ]
]
take_word (c ∷ d ∷ s) = elim (is_space c) [
  | true ↦ some ([], c ∷ d ∷ s)
  | false ↦ elim (c == 92) [
    | false ↦ put_byte c (take_word (d ∷ s))
    | true ↦ elim (d == 32) [
      | true ↦ put_byte 32 (take_word s)
      | false ↦ put_byte 92 (put_byte d (take_word s))
    ]
  ]
]

-- The outer loop, at a text that has no white space in front; each round takes bytes off the text.
unfoldable pub take_words : ℕ → List ℕ → Option (List (List ℕ))
unfolding take_word
take_words rounds [] = some []
take_words zero (c ∷ s) = none
take_words (suc rounds) (c ∷ s) = do
  w ← take_word (c ∷ s)
  ws ← take_words rounds (skip_space (w.1))
  some (w.0 ∷ ws)

-- `parseLine`: the words, without the null pointer that ends them.
unfoldable pub parse_line : List ℕ → Option (List (List ℕ))
unfolding take_words
parse_line s = take_words (length s) (skip_space s)

-- The first loop of `main`. White space at the end of the line gives an empty word.
unfoldable pub split_line : ℕ → List ℕ → List (List ℕ)
unfolding skip_space until from
split_line rounds [] = []
split_line zero (c ∷ s) = []
split_line (suc rounds) (c ∷ s) =
    until is_space (skip_space (c ∷ s)) ∷ split_line rounds (from is_space (skip_space (c ∷ s)))

unfoldable pub split_words : List ℕ → List (List ℕ)
unfolding split_line
split_words s = split_line (length s) s

unfoldable pub is_redirection : List ℕ → Bool
unfolding str_eq
is_redirection w = str_eq w (ascii "<") || str_eq w (ascii ">") || str_eq w (ascii "2>")

-- The second loop of `main`, which leaves out each redirection with its file.
unfoldable pub new_buffer : List (List ℕ) → List ℕ
unfolding is_redirection
new_buffer [] = []
new_buffer (w ∷ []) = if is_redirection w then [] else w ++ 32 ∷ []
new_buffer (w ∷ file ∷ ws) = elim (is_redirection w) [
  | true ↦ new_buffer ws
  | false ↦ w ++ 32 ∷ new_buffer (file ∷ ws)
]
