-- ===== src/MiniShell/Child.antt =====
-- The process that `main` of `MiniShell/myShell.cpp` forks for a command: it goes through the words
-- of the line for redirections and pipes, and runs the command. The left side of a pipe runs to its
-- end before the right side starts.
use tiny_projects_and_tools.Base.{
  ℕ, zero, suc, ◌+◌, Bool, true, false, List, [], ◌∷◌, ◌++◌, Option, none, some, if◌then◌else◌,
  ascii, str_eq, get_elem?, take, drop, length,
}

abbrev pub Words : Type 0
Words = List (List ℕ)

-- What the process does before it runs its command: it opens a file as its input (0), output (1) or
-- error output (2), or has a process run the words in front of a pipe and takes its output.
pub data Effect : Type 0 where
  redirect : ℕ → List ℕ → Effect
  pipe : Words → Effect

-- How a pipe goes: fork fails, waitpid returns the process, or waitpid returns something else.
pub data PipeEnd : Type 0 where
  fork_failed : PipeEnd
  waited : PipeEnd
  not_waited : PipeEnd

-- How the scan ends: the command is run; the process exits; a read past the words; a pipe whose end
-- is not known; or no round is left.
pub data ChildEnd : Type 0 where
  exec : Words → ChildEnd
  exit_failure : ChildEnd
  past_words : ChildEnd
  pending : ChildEnd
  no_round : ChildEnd

unfoldable pub flag_of : List ℕ → Option ℕ
unfolding str_eq
flag_of w =
    if str_eq w (ascii "<")
    then some 0
    else if str_eq w (ascii ">")
    then some 1
    else if str_eq w (ascii "2>")
    then some 2
    else none

unfoldable pub is_pipe : List ℕ → Bool
unfolding str_eq
is_pipe w = str_eq w (ascii "|")

unfoldable pub emit : Effect → List Effect × ChildEnd → List Effect × ChildEnd
emit e r = (e ∷ r.0, r.1)

-- The loop over the words, at the word `j`. `j = 0` is followed by `j++`. `args` is the vector of
-- the words, `cmd` the command that is run in the end.
unfoldable pub scan : ℕ → ℕ → Words → Words → List PipeEnd → List Effect × ChildEnd
unfolding flag_of is_pipe emit
scan zero j args cmd ends = ([], no_round)
scan (suc rounds) j args cmd ends = elim (get_elem? args j) [
  | none ↦ ([], exec cmd)
  | some w ↦ elim (flag_of w) [
    | some flag ↦ elim (get_elem? args (j + 1)) [
      | none ↦ ([], past_words)
      | some file ↦
          emit (redirect flag file) (scan rounds 1 (take j args ++ drop (j + 2) args) cmd ends)
    ]
    | none ↦ elim (is_pipe w) [
      | false ↦ scan rounds (j + 1) args cmd ends
      | true ↦ elim ends [
        | [] ↦ ([], pending)
        | e ∷ more ↦ elim e [
          | fork_failed ↦ ([], exit_failure)
          | waited ↦
              emit (pipe (take j args)) (scan rounds 1 (drop (j + 1) args) (drop (j + 1) args) more)
          | not_waited ↦ emit (pipe (take j args)) (scan rounds (j + 1) args args more)
        ]
      ]
    ]
  ]
]

-- Each time words are taken out, the words that are left are gone through once more at most.
unfoldable pub rescans : ℕ → ℕ
rescans zero = 0
rescans (suc n) = rescans n + suc n

unfoldable pub child : Words → Words → List PipeEnd → List Effect × ChildEnd
unfolding scan rescans
child args cmd ends = scan (suc (length args) + rescans (length args)) 0 args cmd ends
