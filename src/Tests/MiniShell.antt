-- ===== src/Tests/MiniShell.antt =====
-- The shell of `MiniShell` at concrete inputs.
use tiny_projects_and_tools.Base.{
  ℕ, ◌≡◌, ◌≢◌, arith, List, [], ◌∷◌, Option, none, some, refl, ascii, if◌then◌else◌, str_eq,
}
use tiny_projects_and_tools.Base.CString.{is_space, skip_space}
use tiny_projects_and_tools.MiniShell.Words.{parse_line, new_buffer, split_words}
use tiny_projects_and_tools.MiniShell.Dirs.{Shell, push_dir, pop_dir}
use tiny_projects_and_tools.MiniShell.Stack.{pop_dir-push_dir}
use tiny_projects_and_tools.MiniShell.Builtins.{dispatch, turn}
use tiny_projects_and_tools.MiniShell.Child.{
  redirect, pipe, waited, not_waited, exec, no_round, child, flag_of, is_pipe,
}
use tiny_projects_and_tools.MiniShell.Rounds.{child-Ends}
use tiny_projects_and_tools.MiniShell.Pipelines.{joined, child-pipeline}
use tiny_projects_and_tools.MiniShell.Ends.{turn_safe}
use tiny_projects_and_tools.MiniShell.Parsing.{without_files, parse_line-new_buffer}

-- Every directory but "x" can be entered by its name.
abbrev enter_dir : List ℕ → List ℕ → Option (List ℕ)
enter_dir cwd dir = if str_eq dir (ascii "x") then none else some dir

abbrev shell : Shell
shell = record { cwd = ascii "/a"; dir_stack = ascii "/c" ∷ ascii "/d" ∷ [] }

pop_dir-push_dir_example :
    pop_dir enter_dir ((push_dir enter_dir shell (ascii "/b")).0) ≡ (shell, [])
pop_dir-push_dir_example =
    pop_dir-push_dir enter_dir shell (ascii "/b") (ascii "/b") (unfold str_eq in refl)
      (unfold str_eq in refl)

-- "ls > f"
parse_line-new_buffer_example :
    parse_line (new_buffer (ascii "ls" ∷ ascii ">" ∷ ascii "f" ∷ []))
    ≡ some (without_files (ascii "ls" ∷ ascii ">" ∷ ascii "f" ∷ []))
unfolding is_space
parse_line-new_buffer_example =
    parse_line-new_buffer (ascii "ls" ∷ ascii ">" ∷ ascii "f" ∷ [])
      (((refl, refl), ((refl, refl), tt)), (((refl, refl), tt), (((refl, refl), tt), tt)))

split_words_run : split_words (ascii "ls  -l ") ≡ ascii "ls" ∷ ascii "-l" ∷ [] ∷ []
unfolding split_words
split_words_run = refl

-- A backslash keeps the blank behind it in the word.
parse_line_escape : parse_line (ascii "a\\ b c ") ≡ some (ascii "a b" ∷ ascii "c" ∷ [])
unfolding parse_line skip_space
parse_line_escape = refl

-- The line ends with a backslash.
turn_safe_example :
    (words : List (List ℕ)) × (parse_line (new_buffer (split_words (ascii "ls \\"))) ≡ some words)
    × (turn enter_dir (ascii "/h") shell (ascii "ls \\")
        ≡ dispatch enter_dir (ascii "/h") shell (split_words (ascii "ls \\")) words)
turn_safe_example = turn_safe enter_dir (ascii "/h") shell (ascii "ls \\")

-- "ls -l | sort | wc"
abbrev ls : List (List ℕ)
ls = ascii "ls" ∷ ascii "-l" ∷ []

abbrev sort_wc : List (List (List ℕ))
sort_wc = (ascii "sort" ∷ []) ∷ (ascii "wc" ∷ []) ∷ []

child-pipeline_example :
    child (joined ls sort_wc) ls (waited ∷ waited ∷ [])
    ≡ (pipe ls ∷ pipe (ascii "sort" ∷ []) ∷ [], exec (ascii "wc" ∷ []))
unfolding flag_of is_pipe
child-pipeline_example = child-pipeline ls sort_wc ls (
  (omega arith, ((refl, refl), ((refl, refl), tt))),
  ((omega arith, ((refl, refl), tt)), ((omega arith, ((refl, refl), tt)), tt)),
)

-- Behind a pipe a redirection stays among the words of the command that is run.
child_redirected :
    child (joined ls ((ascii "wc" ∷ ascii ">" ∷ ascii "f" ∷ []) ∷ [])) ls (waited ∷ [])
    ≡ (pipe ls ∷ redirect 1 (ascii "f") ∷ [], exec (ascii "wc" ∷ ascii ">" ∷ ascii "f" ∷ []))
unfolding child
child_redirected = refl

child-Ends_example : (child (joined ls sort_wc) ls (waited ∷ not_waited ∷ [])).1 ≢ no_round
child-Ends_example = child-Ends (joined ls sort_wc) ls (waited ∷ not_waited ∷ [])
