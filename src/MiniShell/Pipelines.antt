-- ===== src/MiniShell/Pipelines.antt =====
-- A line of commands with pipes between them, gone through by the child process of
-- `MiniShell/myShell.cpp`.
use mathlib.Core.List.{append-nil}
use tiny_projects_and_tools.Base.{
  ℕ, zero, suc, ◌+◌, ◌-◌, ◌≤◌, ◌<◌, ◌≡◌, refl, sym, ap, ◌∙◌, false, List, [], ◌∷◌, ◌++◌, none, some,
  All, ascii, get_elem?, take, drop, length, length-append, replicate, arith,
}
use tiny_projects_and_tools.MiniShell.Child.{
  Words, Effect, PipeEnd, waited, ChildEnd, exec, flag_of, is_pipe, emit, scan, rescans, child,
  pipe,
}

-- A word that is neither a redirection nor a pipe.
abbrev pub IsPlain : List ℕ → Type 0
IsPlain w = (flag_of w ≡ none) × (is_pipe w ≡ false)

-- A command of a pipeline.
abbrev pub IsCommand : Words → Type 0
IsCommand ws = (0 < length ws) × All IsPlain ws

abbrev pub bar : List ℕ
bar = ascii "|"

-- The commands of a pipeline as one line, the processes that are run for all but the last, and the
-- last, which is `cmd` if there is but one.
abbrev pub joined : Words → List Words → Words
joined s [] = s
joined s (t ∷ ss) = s ++ bar ∷ joined t ss

abbrev pub pipes : Words → List Words → List Effect
pipes s [] = []
pipes s (t ∷ ss) = pipe s ∷ pipes t ss

abbrev pub last_of : Words → List Words → Words
last_of cmd [] = cmd
last_of cmd (t ∷ ss) = last_of t ss

IsPlain-at :
    (s rest : Words) (i : ℕ)
    → All IsPlain s
    → i < length s
    → (w : List ℕ) × (get_elem? (s ++ rest) i ≡ some w) × IsPlain w
IsPlain-at [] rest i h lt = absurd (omega arith)
IsPlain-at (w ∷ s) rest zero h lt = (w, refl, h.0)
IsPlain-at (w ∷ s) rest (suc i) h lt = IsPlain-at s rest i h.1 (omega arith)

at_end : (s rest : Words) → get_elem? (s ++ rest) (length s) ≡ get_elem? rest 0
at_end [] rest = refl
at_end (w ∷ s) rest = at_end s rest

take-command : (s rest : Words) → take (length s) (s ++ rest) ≡ s
take-command [] rest = refl
take-command (w ∷ s) rest = ap (λ xs. w ∷ xs) (take-command s rest)

drop-command : (s : Words) (w : List ℕ) (rest : Words) → drop (length s + 1) (s ++ w ∷ rest) ≡ rest
drop-command [] w rest = refl
drop-command (v ∷ s) w rest =
    let e : length (v ∷ s) + 1 ≡ suc (length s + 1) = omega arith in
    ap (λ k. drop k ((v ∷ s) ++ w ∷ rest)) e ∙ drop-command s w rest

-- The scan passes over plain words.
scan-plain :
    (left j rounds need : ℕ) (s rest cmd : Words) (ends : List PipeEnd) (r : List Effect × ChildEnd)
    → All IsPlain s
    → j + left ≡ length s
    → ((n : ℕ) → need ≤ n → scan n (length s) (s ++ rest) cmd ends ≡ r)
    → left + need ≤ rounds
    → scan rounds j (s ++ rest) cmd ends ≡ r
unfolding scan
scan-plain zero j rounds need s rest cmd ends r plain e done enough =
    ap (λ k. scan rounds k (s ++ rest) cmd ends) (omega (arith, e)) ∙ done rounds (omega arith)
scan-plain (suc left) j zero need s rest cmd ends r plain e done enough = absurd (omega arith)
scan-plain (suc left) j (suc rounds) need s rest cmd ends r plain e done enough =
    let (w, here, plain_word) = IsPlain-at s rest j plain (omega (arith, e)) in
    rw (here, plain_word.0, plain_word.1, scan)
      (scan-plain left (j + 1) rounds need s rest cmd ends r plain (omega (arith, e)) done
        (omega arith))

-- A pipe whose process is waited for.
scan-pipe :
    (rounds : ℕ) (s rest cmd : Words) (ends : List PipeEnd)
    → scan (suc rounds) (length s) (s ++ bar ∷ rest) cmd (waited ∷ ends)
      ≡ emit (pipe s) (scan rounds 1 rest rest ends)
unfolding scan
scan-pipe rounds s rest cmd ends =
    rw (at_end s (bar ∷ rest), take-command s (bar ∷ rest), drop-command s bar rest, scan) refl

-- The end of the words.
scan-last :
    (rounds : ℕ) (s cmd : Words) (ends : List PipeEnd)
    → scan (suc rounds) (length s) (s ++ []) cmd ends ≡ ([], exec cmd)
unfolding scan
scan-last rounds s cmd ends = rw (at_end s [], scan) refl

scan-pipeline :
    (s : Words) (ss : List Words) (j rounds : ℕ) (cmd : Words)
    → All IsCommand (s ∷ ss)
    → j ≤ length s
    → length (joined s ss) < rounds
    → scan rounds j (joined s ss) cmd (replicate (length ss) waited)
      ≡ (pipes s ss, exec (last_of cmd ss))
unfolding emit
scan-pipeline s [] j rounds cmd h hj enough =
    ap (λ args. scan rounds j args cmd []) (sym (append-nil s))
    ∙ scan-plain (length s - j) j rounds 1 s [] cmd [] _ h.0.1 (omega arith) last (omega arith)
  where
    last : (n : ℕ) → 1 ≤ n → scan n (length s) (s ++ []) cmd [] ≡ ([], exec cmd)
    last zero le = absurd (omega arith)
    last (suc n) le = scan-last n s cmd []
scan-pipeline s (t ∷ ss) j rounds cmd h hj enough =
    scan-plain (length s - j) j rounds (length (joined t ss) + 2) s (bar ∷ joined t ss) cmd
      (waited ∷ replicate (length ss) waited) _ h.0.1 (omega arith)
      (next (λ n le. scan-pipeline t ss 1 n (joined t ss) h.1 (omega (arith, h.1.0.0)) le))
      (omega (arith, enough, length-append s (bar ∷ joined t ss)))
  where
    next :
        ((n : ℕ)
          → length (joined t ss) < n
          → scan n 1 (joined t ss) (joined t ss) (replicate (length ss) waited)
            ≡ (pipes t ss, exec (last_of (joined t ss) ss)))
        → (n : ℕ) → length (joined t ss) + 2 ≤ n
        → scan n (length s) (s ++ bar ∷ joined t ss) cmd (waited ∷ replicate (length ss) waited)
          ≡ (pipe s ∷ pipes t ss, exec (last_of t ss))
    next again zero le = absurd (omega arith)
    next again (suc n) le =
        scan-pipe n s (joined t ss) cmd (replicate (length ss) waited)
        ∙ ap (emit (pipe s)) (again n (omega arith))
        ∙ ap (λ c. (pipe s ∷ pipes t ss, exec c)) (same ss)
      where
        same : (ss : List Words) → last_of (joined t ss) ss ≡ last_of t ss
        same [] = refl
        same (u ∷ us) = refl

-- Commands of words that are neither redirections nor pipes, at least one word each, with pipes
-- between them: when every process is waited for, the child has the commands but the last run in
-- their order and then runs the last; of one command it runs what parseLine made of the line.
pub child-pipeline :
    (s : Words) (ss : List Words) (cmd : Words)
    → All IsCommand (s ∷ ss)
    → child (joined s ss) cmd (replicate (length ss) waited) ≡ (pipes s ss, exec (last_of cmd ss))
unfolding child
child-pipeline s ss cmd h =
    scan-pipeline s ss 0 (suc (length (joined s ss)) + rescans (length (joined s ss))) cmd h
      (omega arith) (omega arith)
