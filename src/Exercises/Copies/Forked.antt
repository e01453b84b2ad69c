-- ===== src/Exercises/Copies/Forked.antt =====
-- The whole run of a program that prints, forks and prints on in both processes.
use cse4300_project.Prelude.{
  append-nil, append_assoc, ℕ, zero, suc, ◌+◌, ◌≤◌, ◌≡◌, refl, sym, ap, ◌∙◌, true, false, some,
  List, [], ◌∷◌, ◌++◌, arith, ◌⊎◌, inl, inr, length,
}
use cse4300_project.Processes.{
  Os, Fork, in_child, in_parent, failed, Code, Line, Machine, machine_step, Run, stop, go, IsStuck,
}
use cse4300_project.Exercises.Shuffles.{Shuffle}
use cse4300_project.Exercises.Copies.Apart.{
  Prints, prints, then_fork, lines_of, alone, two, some_same, no_state, Run-Shuffled, Run-alone,
}

module _ (os : Os) (g : Fork → Code) (xs ys zs : Prints) (m n l b : ℕ)
    (b-both : length xs + length ys ≤ b) (b-failed : length zs ≤ b)
    (g-in_parent : g (in_parent (os.pid 1)) ≡ prints xs m) (g-in_child : g in_child ≡ prints ys n)
    (g-failed : g failed ≡ prints zs l) where
  abbrev Told : List Line → Machine → Type 0
  Told w t =
      ((z : List Line) × Shuffle (lines_of (os.pid 0) xs) (lines_of (os.pid 1) ys) z
        × (t.printed ≡ w ++ z)
        × (t.forks ≡ true ∷ []))
      ⊎ ((t.printed ≡ w ++ lines_of (os.pid 0) zs) × (t.forks ≡ false ∷ []))

  pub Run-then_fork :
      (k : ℕ) (ps : Prints) (w : List Line) {t : Machine}
      → Run os (alone [] (then_fork ps g) w) k t
      → (k ≤ length ps + suc b) × (IsStuck os t → Told (w ++ lines_of (os.pid 0) ps) t)
  unfolding machine_step
  Run-then_fork zero ps w (stop s) = (omega arith, λ stuck. absurd (goes_on ps stuck))
    where
      goes_on : (ps : Prints) → IsStuck os (alone [] (then_fork ps g) w) → ⊥
      goes_on [] stuck = no_state (sym (stuck false 0))
      goes_on (p ∷ ps) stuck = no_state (sym (stuck false 0))
  Run-then_fork (suc k) ps w (go {s} {t} {u} fails (suc i) first rest) = absurd (past ps first)
    where
      past :
          (ps : Prints) → machine_step os fails (suc i) (alone [] (then_fork ps g) w) ≡ some t → ⊥
      past [] e = no_state e
      past (p ∷ ps) e = no_state e
  Run-then_fork (suc k) [] w (go {s} {t} {u} true zero first rest) =
      let first' = sym (some_same first) ∙ ap (λ c. alone (false ∷ []) c w) g-failed in
      let (short, heard) = Run-alone os k (false ∷ []) zs l w (rw first' at rest) in
      (omega (arith, short, b-both, b-failed), λ stuck. rw (append-nil w) (inr (heard stuck)))
  Run-then_fork (suc k) [] w (go {s} {t} {u} false zero first rest) =
      let first' = sym (some_same first) ∙ both_codes in
      let (short, heard) = Run-Shuffled os k xs ys m n w (rw first' at rest) in
      (omega (arith, short, b-both, b-failed), λ stuck. rw (append-nil w) (inl (heard stuck)))
    where
      both_codes : two (g (in_parent (os.pid 1))) (g in_child) w ≡ two (prints xs m) (prints ys n) w
      both_codes = rw (g-in_parent, g-in_child) refl
  Run-then_fork (suc k) (p ∷ ps) w (go true zero first rest) = absurd (no_state first)
  Run-then_fork (suc k) (p ∷ ps) w (go false zero first rest) =
      let here = lines_of (os.pid 0) (p ∷ []) in
      let (short, heard) = Run-then_fork k ps (w ++ here) (rw (← some_same first) at rest) in
      (
        omega (arith, short),
        λ stuck. rw (← append_assoc w here (lines_of (os.pid 0) ps)) (heard stuck),
      )
