-- ===== src/MiniShell/Builtins.antt =====
-- One turn of the loop in `main` of `MiniShell/myShell.cpp`: the words of a line, and the commands
-- that the shell carries out by itself. Any other line is for a child process.
use tiny_projects_and_tools.Base.{
  ℕ, List, [], ◌∷◌, Option, none, some, ascii, str_eq, if◌then◌else◌,
}
use tiny_projects_and_tools.MiniShell.Words.{parse_line, split_words, new_buffer}
use tiny_projects_and_tools.MiniShell.Dirs.{
  Shell, push_dir, pop_dir, print_dir_stack, clean_dir_stack,
}

-- What a turn does: the shell ends; it goes on, having printed lines; or it starts a process for the
-- words of the command, with all words of the line for its redirections. `fault` reads past the text.
pub data Turn : Type 0 where
  quit : Shell → Turn
  stay : Shell → List (List ℕ) → Turn
  fork : List (List ℕ) → List (List ℕ) → Turn
  fault : Turn

module _ (chdir : List ℕ → List ℕ → Option (List ℕ)) (home : List ℕ) where
  -- A failing change to the home directory prints nothing.
  unfoldable pub change_home : Shell → Turn
  change_home s = elim (chdir s.cwd home) [
    | none ↦ stay s []
    | some cwd' ↦ stay (record s { cwd = cwd' }) []
  ]

  unfoldable pub change_to : Shell → List ℕ → Turn
  change_to s dir = elim (chdir s.cwd dir) [
    | none ↦ stay s (ascii "Error: Invalid directory.\n" ∷ [])
    | some cwd' ↦ stay (record s { cwd = cwd' }) []
  ]

  unfoldable pub cd : Shell → List (List ℕ) → Turn
  unfolding change_home change_to
  cd s [] = change_home s
  cd s (dir ∷ []) = change_to s dir
  cd s (dir ∷ d ∷ more) = stay s (ascii "Error: Invalid use of cd command.\n" ∷ [])

  unfoldable pub staying : Shell × List (List ℕ) → Turn
  staying r = stay (r.0) (r.1)

  unfoldable pub pushd : Shell → List (List ℕ) → Turn
  unfolding staying
  pushd s (dir ∷ []) = staying (push_dir chdir s dir)
  pushd s [] = stay s (ascii "Pushd Usage Error.\n" ∷ [])
  pushd s (dir ∷ d ∷ more) = stay s (ascii "Pushd Usage Error.\n" ∷ [])

  -- The chain of comparisons of the first word.
  unfoldable pub dispatch : Shell → List (List ℕ) → List (List ℕ) → Turn
  unfolding str_eq cd pushd staying
  dispatch s args [] = stay s []
  dispatch s args (name ∷ rest) =
      if str_eq name (ascii "exit")
      then quit (clean_dir_stack s)
      else if str_eq name (ascii "cd")
      then cd s rest
      else if str_eq name (ascii "pushd")
      then pushd s rest
      else if str_eq name (ascii "popd")
      then staying (pop_dir chdir s)
      else if str_eq name (ascii "dirstack")
      then staying (print_dir_stack s)
      else fork (name ∷ rest) args

  unfoldable pub turn : Shell → List ℕ → Turn
  unfolding dispatch parse_line new_buffer split_words
  turn s line = elim (parse_line (new_buffer (split_words line))) [
    | none ↦ fault
    | some words ↦ dispatch s (split_words line) words
  ]
