-- ===== src/Exercises/Copies/Orders.antt =====
-- What fork-01.c, partA_fork.c and fork_text.c print.
use cse4300_project.Prelude.{true, false, ℕ, ◌≤◌, ◌≡◌, refl, List, [], ◌∷◌, ◌++◌, map, arith, ◌⊎◌}
use cse4300_project.Menu.Words.{Word, codes}
use cse4300_project.Processes.{Os, Machine, Line, line, begin, Run, IsStuck}
use cse4300_project.Exercises.Shuffles.{Shuffle}
use cse4300_project.Exercises.Copies.{fork_01, part_a_fork, fork_text}
use cse4300_project.Exercises.Copies.Forked.{Run-then_fork}
use cse4300_project.Exercises.Copies.Reached.{Ends, then_fork-Ends}
use cse4300_project.Exercises.Copies.Apart.{Prints, lines_of}

-- fork was called once. It worked, and the lines of the first process and of the other stand in
-- some order after `w`; or it failed, and the lines of the first stand there alone.
abbrev pub Told : List Line → List Line → List Line → List Line → Machine → Type 0
Told w first second only t =
    ((z : List Line) × Shuffle first second z × (t.printed ≡ w ++ z) × (t.forks ≡ true ∷ []))
    ⊎ ((t.printed ≡ w ++ only) × (t.forks ≡ false ∷ []))

abbrev pub count : Prints
count =
    map (λ i. (codes "This line is from pid %d, value = %d\n", λ self. self ∷ i ∷ []))
      (1 ∷ 2 ∷ 3 ∷ 4 ∷ 5 ∷ 6 ∷ 7 ∷ 8 ∷ 9 ∷ 10 ∷ [])

abbrev forked : Prints → Prints
forked ps = (codes "\nAfter fork\n", λ self. []) ∷ ps

abbrev pub show_variables : Word → ℕ → ℕ → Prints
show_variables identifier global stack =
    (identifier, λ self. [])
    ∷ (codes " Global variable: ", λ self. [])
    ∷ (codes "%d", λ self. global ∷ [])
    ∷ (codes " Stack variable: ", λ self. [])
    ∷ (codes "%d\n", λ self. stack ∷ [])
    ∷ []

module _ (os : Os) where
  abbrev pub parent_tells : Prints
  parent_tells = forked (
      (codes "\n...Parent process...\n", λ self. [])
      ∷ (codes "My PID: %d\n", λ self. self ∷ [])
      ∷ (codes "My Childs pid: %d\n", λ self. os.pid 1 ∷ [])
      ∷ [])

  abbrev pub child_tells : Prints
  child_tells = forked (
      (codes "\n...In Child process...\n", λ self. [])
      ∷ (codes "My pid: %d\n", λ self. self ∷ [])
      ∷ (codes "My copied pid: %d\n", λ self. 0 ∷ [])
      ∷ [])

  -- Every run of fork-01.c, in any order of the steps, ends after at most 21 steps. When no
  -- process can go on, fork has been called once; if it made a process, the lines of both
  -- processes, with their own pids and the values from 1 to 10 in order, have been printed in some
  -- order, each once; if it failed, the lines of the one process.
  pub fork_01_lem :
      (status : ℕ) {k : ℕ} {t : Machine}
      → Run os (begin (fork_01 status)) k t
      → (k ≤ 21)
        × (IsStuck os t
            → Told []
                (lines_of (os.pid 0) count)
                (lines_of (os.pid 1) count)
                (lines_of (os.pid 0) count)
                t)
  unfolding fork_01
  fork_01_lem status {k} {t} run =
      Run-then_fork os _ count count count status status status 20 (omega arith) (omega arith) refl
        refl refl k [] [] run

  pub part_a_fork_lem :
      {k : ℕ} {t : Machine}
      → Run os (begin part_a_fork) k t
      → (k ≤ 10)
        × (IsStuck os t
            → Told
                (line (codes "\nBefore fork\n") [] ∷ [])
                (lines_of (os.pid 0) parent_tells)
                (lines_of (os.pid 1) child_tells)
                (line (codes "\nAfter fork\n") [] ∷ line (codes "Error") [] ∷ [])
                t)
  unfolding part_a_fork
  part_a_fork_lem {k} {t} run =
      Run-then_fork os _ parent_tells child_tells (forked ((codes "Error", λ self. []) ∷ [])) 0 0 0
        8 (omega arith) (omega arith) refl refl refl k ((codes "\nBefore fork\n", λ self. []) ∷ [])
        [] run

  -- In every run of fork_text.c, which ends after at most 11 steps, the variables are the
  -- process's own. When no process can go on, fork has been called once; if it made a process, the
  -- child has printed 3 and 21 and the parent 2 and 20, whatever the order of their steps; if it
  -- failed, nothing is printed.
  pub fork_text_lem :
      (status : ℕ) {k : ℕ} {t : Machine}
      → Run os (begin (fork_text status)) k t
      → (k ≤ 11)
        × (IsStuck os t
            → Told []
                (lines_of (os.pid 0) (show_variables (codes "Parent Process:") 2 20))
                (lines_of (os.pid 1) (show_variables (codes "Child Process: ") 3 21))
                []
                t)
  unfolding fork_text
  fork_text_lem status {k} {t} run =
      Run-then_fork os _ (show_variables (codes "Parent Process:") 2 20)
        (show_variables (codes "Child Process: ") 3 21) [] status status 1 10 (omega arith)
        (omega arith) refl refl refl k [] [] run

  -- Every order of the lines of the two processes of fork-01.c that keeps the order of each
  -- process is what some run prints that nobody can go on with; so the two processes wait for each
  -- other nowhere.
  pub fork_01-Ends :
      (status : ℕ) {z : List Line}
      → Shuffle (lines_of (os.pid 0) count) (lines_of (os.pid 1) count) z
      → Ends os (begin (fork_01 status)) z
  unfolding fork_01
  fork_01-Ends status order = then_fork-Ends os _ count count status status refl refl [] [] order
