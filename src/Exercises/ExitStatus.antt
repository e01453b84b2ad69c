-- ===== src/Exercises/ExitStatus.antt =====
-- fork_test.c: the parent tells the exit status of its child. The value that scanf reads is a
-- parameter, and so is the status with which main ends when fork fails.
use cse4300_project.Prelude.{
  ℕ, ◌≤◌, ◌%◌, ◌≡◌, refl, ap, true, false, List, [], ◌∷◌, ◌++◌, map, Option, none, some, arith, ◌⊎◌,
  inl, inr,
}
use cse4300_project.Menu.Words.{codes}
use cse4300_project.Processes.{
  Fork, in_child, in_parent, failed, Code, exit, fork, wait, Os, Machine, Line, line, begin, Run,
  IsStuck, machine_step,
}
use cse4300_project.Processes.Outcomes.{Outcome, seen, outcomes, Run-outcomes}
use cse4300_project.Exercises.{say, say_pid, say_ppid, say_number}
use cse4300_project.Exercises.Shuffles.{Shuffle, shuffles, shuffles-Shuffle, In-append, In-map}

abbrev child_part : ℕ → Code
child_part retval = say (codes "CHILD: I am the child process!\n") (
    say_pid (codes "CHILD: Here's my PID: %d\n") (
      say_ppid (codes "CHILD: My parent's PID is: %d\n") (
        say_number (codes "CHILD: The value of my copy of childpid is: %d\n") 0 (
          say (codes "CHILD: Sleeping for 1 second...\n") (
            say (codes "CHILD: Enter an exit value (0 to 255): ")
              (say (codes "CHILD: Goodbye!\n") (exit retval)))))))

-- WEXITSTATUS of what wait leaves in the status. With no child, wait leaves `before` there.
abbrev wexitstatus : ℕ → Option ℕ → ℕ
wexitstatus before none = before
wexitstatus before (some n) = n

abbrev parent_part : ℕ → ℕ → Code
parent_part before childpid = say (codes "PARENT: I am the parent process!\n") (
    say_pid (codes "PARENT: Here's my PID: %d\n") (
      say_number (codes "PARENT: The value of my copy of childpid is %d\n") childpid (
        say (codes "PARENT: I will now wait for my child to exit.\n") (
          wait (λ status.
            say_number (codes "PARENT: Child's exit code is: %d\n") (wexitstatus before status)
              (say (codes "PARENT: Goodbye!\n") (exit 0)))))))

-- perror writes to stderr.
abbrev test_forked : ℕ → ℕ → Fork → Code
test_forked retval before in_child = child_part retval
test_forked retval before (in_parent childpid) = parent_part before childpid
test_forked retval before failed = exit 0

unfoldable pub fork_test : ℕ → ℕ → Code
fork_test retval before = fork (test_forked retval before)

module _ (os : Os) where
  abbrev pub child_lines : List Line
  child_lines =
      line (codes "CHILD: I am the child process!\n") []
      ∷ line (codes "CHILD: Here's my PID: %d\n") (os.pid 1 ∷ [])
      ∷ line (codes "CHILD: My parent's PID is: %d\n") (os.pid 0 ∷ [])
      ∷ line (codes "CHILD: The value of my copy of childpid is: %d\n") (0 ∷ [])
      ∷ line (codes "CHILD: Sleeping for 1 second...\n") []
      ∷ line (codes "CHILD: Enter an exit value (0 to 255): ") []
      ∷ line (codes "CHILD: Goodbye!\n") []
      ∷ []

  abbrev pub parent_lines : List Line
  parent_lines =
      line (codes "PARENT: I am the parent process!\n") []
      ∷ line (codes "PARENT: Here's my PID: %d\n") (os.pid 0 ∷ [])
      ∷ line (codes "PARENT: The value of my copy of childpid is %d\n") (os.pid 1 ∷ [])
      ∷ line (codes "PARENT: I will now wait for my child to exit.\n") []
      ∷ []

abbrev pub last_lines : ℕ → List Line
last_lines retval =
    line (codes "PARENT: Child's exit code is: %d\n") (retval % 256 ∷ [])
    ∷ line (codes "PARENT: Goodbye!\n") []
    ∷ []

module _ (os : Os) (retval before : ℕ) where
  abbrev with_last : List Line → Outcome
  with_last ls = (true ∷ [], ls ++ last_lines retval)

  outcomes-fork_test :
      outcomes os 16 (begin (fork_test retval before))
      ≡ some (map with_last (shuffles (child_lines os) (parent_lines os)) ++ (false ∷ [], []) ∷ [])
  unfolding outcomes fork_test machine_step
  outcomes-fork_test = refl

  -- Every run of fork_test.c, in any order of the steps, ends after at most 15 steps. When no
  -- process can go on, fork has been called once; if it made a process, the last two lines are
  -- those of the parent that tell the exit code of the child, which is the value read modulo 256,
  -- and take leave, and before them stand all lines of the child and the other lines of the
  -- parent, each in its own order; if it failed, nothing is printed.
  pub fork_test_lem :
      {n : ℕ} {t : Machine}
      → Run os (begin (fork_test retval before)) n t
      → (n ≤ 15)
        × (IsStuck os t
            → ((t.forks ≡ false ∷ []) × (t.printed ≡ []))
              ⊎ ((ls : List Line) × Shuffle (child_lines os) (parent_lines os) ls
                  × (t.forks ≡ true ∷ [])
                  × (t.printed ≡ ls ++ last_lines retval)))
  fork_test_lem {n} {t} run =
      let all = map with_last (shuffles (child_lines os) (parent_lines os)) in
      let (fits, heard) =
        Run-outcomes os 16 n (all ++ (false ∷ [], []) ∷ []) outcomes-fork_test run in
      (
        omega (arith, fits),
        λ stuck. elim (In-append (seen t) all ((false ∷ [], []) ∷ []) (heard stuck)) [
          | inl i ↦
              let (ls, there, e) =
                In-map with_last (seen t) (shuffles (child_lines os) (parent_lines os)) i in
              inr (
                ls,
                shuffles-Shuffle (child_lines os) (parent_lines os) ls there,
                ap (λ o. o.0) e,
                ap (λ o. o.1) e,
              )
          | inr (inl e) ↦ inl (ap (λ o. o.0) e, ap (λ o. o.1) e)
          | inr (inr i) ↦ absurd i
        ],
      )
