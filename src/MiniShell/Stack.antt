-- ===== src/MiniShell/Stack.antt =====
-- The rotations of the queue of directories of `MiniShell/myShell.cpp`.
use tiny_projects_and_tools.Base.{
  ℕ, suc, ◌≡◌, refl, sym, ap, ◌∙◌, List, [], ◌∷◌, ◌++◌, Option, some, length, arith,
}
use mathlib.Core.List.{append_assoc, append-nil}
use tiny_projects_and_tools.MiniShell.Dirs.{
  Shell, rotate, push_dir, enter, pop_dir, print_loop, print_dir_stack,
}

-- Rotating by the length of a prefix moves the prefix behind the rest.
rotate-append : (p q : List (List ℕ)) → rotate (length p) (p ++ q) ≡ q ++ p
unfolding rotate
rotate-append [] q = sym (append-nil q)
rotate-append (d ∷ p) q =
    ap (rotate (length p)) (append_assoc p q (d ∷ []))
    ∙ rotate-append p (q ++ d ∷ [])
    ∙ append_assoc q (d ∷ []) p

print_loop-append : (p q : List (List ℕ)) → print_loop (length p) (p ++ q) ≡ (p, q ++ p)
unfolding print_loop
print_loop-append [] q = ap (λ l. ([], l)) (sym (append-nil q))
print_loop-append (d ∷ p) q =
    ap (λ (r : List (List ℕ) × List (List ℕ)). (d ∷ r.0, r.1))
      (ap (print_loop (length p)) (append_assoc p q (d ∷ []))
        ∙ print_loop-append p (q ++ d ∷ [])
        ∙ ap (λ l. (p, l)) (append_assoc q (d ∷ []) p))

length-snoc : (q : List (List ℕ)) (x : List ℕ) → length (q ++ x ∷ []) ≡ suc (length q)
length-snoc [] x = refl
length-snoc (d ∷ q) x = ap suc (length-snoc q x)

module _ (chdir : List ℕ → List ℕ → Option (List ℕ)) where
  -- The directory pushed last is entered.
  pop_dir-last :
      (w x : List ℕ) (q : List (List ℕ))
      → pop_dir chdir (record { cwd = w; dir_stack = q ++ x ∷ [] })
        ≡ enter chdir (record { cwd = w; dir_stack = q ++ x ∷ [] }) (x ∷ q)
  unfolding pop_dir
  pop_dir-last w x [] = unfold rotate in refl
  pop_dir-last w x (d ∷ q) =
      ap (enter chdir (record { cwd = w; dir_stack = d ∷ q ++ x ∷ [] }))
        (ap (λ n. rotate n (d ∷ q ++ x ∷ [])) (length-snoc q x) ∙ rotate-append (d ∷ q) (x ∷ []))

  -- A `popd` behind a `pushd` that entered its directory gives the shell back, if the working directory
  -- of before can be entered by its name from there.
  pub pop_dir-push_dir :
      (s : Shell) (dir cwd' : List ℕ)
      → chdir s.cwd dir ≡ some cwd'
      → chdir cwd' s.cwd ≡ some s.cwd
      → pop_dir chdir ((push_dir chdir s dir).0) ≡ (s, [])
  unfolding push_dir
  pop_dir-push_dir s dir cwd' there back =
      let pushed : (push_dir chdir s dir).0
          ≡ record { cwd = cwd'; dir_stack = s.dir_stack ++ s.cwd ∷ [] } =
        ground (arith, there) in
      ap (pop_dir chdir) pushed
      ∙ pop_dir-last cwd' s.cwd s.dir_stack
      ∙ unfold enter in ground (arith, back)

-- `dirstack` prints the directories in the order of the queue and leaves it as it was.
pub print_dir_stack_keeps : (s : Shell) → print_dir_stack s ≡ (s, s.dir_stack)
unfolding print_dir_stack
print_dir_stack_keeps s =
    let looped : print_loop (length s.dir_stack) s.dir_stack ≡ (s.dir_stack, s.dir_stack) =
      ap (print_loop (length s.dir_stack)) (sym (append-nil s.dir_stack))
      ∙ print_loop-append s.dir_stack [] in
    ap (λ (r : List (List ℕ) × List (List ℕ)). (record s { dir_stack = r.1 }, r.0)) looped
