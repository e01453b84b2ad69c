-- ===== src/Exercises/Family/Generations.antt =====
-- The order in which project_2/partA.c prints.
use cse4300_project.Prelude.{
  ℕ, ◌≤◌, ◌≡◌, refl, ap, Bool, true, false, List, [], ◌∷◌, ◌++◌, some, arith, ◌⊎◌, inl, inr,
}
use cse4300_project.Menu.Words.{codes}
use cse4300_project.Processes.{Os, Machine, Line, line, begin, Run, IsStuck, machine_step}
use cse4300_project.Processes.Outcomes.{Outcome, seen, outcomes, Run-outcomes}
use cse4300_project.Exercises.Family.{family}

-- The calls of fork went as in `fs`, and `ls` has been printed.
abbrev pub Came : Machine → List Bool → List Line → Type 0
Came t fs ls = (t.forks ≡ fs) × (t.printed ≡ ls)

came : (t : Machine) {fs : List Bool} {ls : List Line} → seen t ≡ (fs, ls) → Came t fs ls
came t e = (ap (λ o. o.0) e, ap (λ o. o.1) e)

module _ (os : Os) where
  abbrev pub begin_line : Line
  begin_line = line (codes "\nBegin\n") []

  abbrev pub of_grandchild : List Line
  of_grandchild =
      line (codes "\n...In GrandChild process...\n") []
      ∷ line (codes "My pid: %d\n") (os.pid 2 ∷ [])
      ∷ line (codes "My parent pid: %d\n") (os.pid 1 ∷ [])
      ∷ line (codes "My child pid: none\n") []
      ∷ []

  abbrev pub of_child : List Line
  of_child =
      line (codes "\n...In Child process...\n") []
      ∷ line (codes "My pid: %d\n") (os.pid 1 ∷ [])
      ∷ line (codes "My parent pid: %d\n") (os.pid 0 ∷ [])
      ∷ line (codes "My child pid: %d\n") (os.pid 2 ∷ [])
      ∷ []

  abbrev pub of_parent : List Line
  of_parent =
      line (codes "\n...In Parent process...\n") []
      ∷ line (codes "My pid: %d\n") (os.pid 0 ∷ [])
      ∷ line (codes "My parent pid: %d\n") (os.shell_pid ∷ [])
      ∷ line (codes "My child pid: %d\n") (os.pid 1 ∷ [])
      ∷ line (codes "\nEnd\n") []
      ∷ []

  abbrev everything : List Outcome
  everything =
      (true ∷ true ∷ [], begin_line ∷ (of_grandchild ++ of_child ++ of_parent))
      ∷ (true ∷ false ∷ [], begin_line ∷ of_parent)
      ∷ (false ∷ [], begin_line ∷ line (codes "Fork failed") [] ∷ [])
      ∷ []

  outcomes-family : outcomes os 19 (begin family) ≡ some everything
  unfolding outcomes family machine_step
  outcomes-family = refl

  -- Every run of project_2/partA.c, in any order of the steps of its processes, ends after at most
  -- 18 steps. When none of them can go on, either both calls of fork have made a process, and it
  -- has printed Begin, then all lines of the grandchild, then those of the child, then those of
  -- the parent up to End, each process with its own pid, the pid of its parent, which is still
  -- there, and that of its child; or the first has made one and the second has failed, and only
  -- the parent's lines follow Begin; or the first has failed, no other was made, and only the line
  -- that says so follows.
  pub family_lem :
      {n : ℕ} {t : Machine}
      → Run os (begin family) n t
      → (n ≤ 18)
        × (IsStuck os t
            → Came t (true ∷ true ∷ []) (begin_line ∷ (of_grandchild ++ of_child ++ of_parent))
              ⊎ (Came t (true ∷ false ∷ []) (begin_line ∷ of_parent)
                  ⊎ Came t (false ∷ []) (begin_line ∷ line (codes "Fork failed") [] ∷ [])))
  family_lem {n} {t} run =
      let (fits, heard) = Run-outcomes os 19 n everything outcomes-family run in
      (
        omega (arith, fits),
        λ stuck. elim (heard stuck) [
          | inl e ↦ inl (came t e)
          | inr (inl e) ↦ inr (inl (came t e))
          | inr (inr (inl e)) ↦ inr (inr (came t e))
          | inr (inr (inr i)) ↦ absurd i
        ],
      )
