-- ===== src/MiniShell/Dirs.antt =====
-- The directory stack of `MiniShell/myShell.cpp`, which is a `queue`: the front is the head of the
-- list. `chdir` is a parameter: the working directory after it, or `none` if it fails.
use tiny_projects_and_tools.Base.{
  ℕ, zero, suc, List, [], ◌∷◌, ◌++◌, Option, none, some, length, ascii,
}

pub record Shell : Type 0 where
  pub cwd : List ℕ
  pub dir_stack : List (List ℕ)

abbrev pub invalid_directory : List ℕ
invalid_directory = ascii "pushd Error: Invalid directory.\n"

-- `dirStack.push(dirStack.front()); dirStack.pop()`, some times.
unfoldable pub rotate : ℕ → List (List ℕ) → List (List ℕ)
rotate zero q = q
rotate (suc n) [] = []
rotate (suc n) (d ∷ q) = rotate n (q ++ d ∷ [])

module _ (chdir : List ℕ → List ℕ → Option (List ℕ)) where
  -- The shell, and what it prints.
  unfoldable pub push_dir : Shell → List ℕ → Shell × List (List ℕ)
  push_dir s dir = elim (chdir s.cwd dir) [
    | none ↦ (s, invalid_directory ∷ [])
    | some cwd' ↦ (record { cwd = cwd'; dir_stack = s.dir_stack ++ s.cwd ∷ [] }, [])
  ]

  unfoldable pub enter : Shell → List (List ℕ) → Shell × List (List ℕ)
  enter s [] = (s, [])
  enter s (dir ∷ q) = elim (chdir s.cwd dir) [
    | none ↦ (record s { dir_stack = q }, invalid_directory ∷ [])
    | some cwd' ↦ (record { cwd = cwd'; dir_stack = q }, [])
  ]

  unfoldable pub pop_dir : Shell → Shell × List (List ℕ)
  unfolding rotate enter
  pop_dir s = elim s.dir_stack [
    | [] ↦ (s, ascii "popd: directory stack empty\n" ∷ [])
    | d ∷ q ↦ enter s (rotate (length q) (d ∷ q))
  ]

-- The loop of `Printdirstack`: the lines printed, and the queue.
unfoldable pub print_loop : ℕ → List (List ℕ) → List (List ℕ) × List (List ℕ)
print_loop zero q = ([], q)
print_loop (suc n) [] = ([], [])
print_loop (suc n) (d ∷ q) = let rest = print_loop n (q ++ d ∷ []) in (d ∷ rest.0, rest.1)

unfoldable pub print_dir_stack : Shell → Shell × List (List ℕ)
unfolding print_loop
print_dir_stack s =
    let (lines, q) = print_loop (length s.dir_stack) s.dir_stack in
    (record s { dir_stack = q }, lines)

-- The loop of `cleandirstack`.
unfoldable pub clean_loop : ℕ → List (List ℕ) → List (List ℕ)
clean_loop zero q = q
clean_loop (suc n) [] = []
clean_loop (suc n) (d ∷ q) = clean_loop n q

unfoldable pub clean_dir_stack : Shell → Shell
unfolding clean_loop
clean_dir_stack s = record s { dir_stack = clean_loop (length s.dir_stack) s.dir_stack }
