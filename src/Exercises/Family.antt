-- ===== src/Exercises/Family.antt =====
-- project_2/partA.c: a process with a child and a grandchild, each of which waits for its own child
-- and then tells the pids of its relatives.
pub mod Generations
use cse4300_project.Prelude.{ℕ}
use cse4300_project.Menu.Words.{codes}
use cse4300_project.Processes.{Fork, in_child, in_parent, failed, Code, exit, fork, wait}
use cse4300_project.Exercises.{say, say_pid, say_ppid, say_number}

abbrev pub grandchild_process : Code
grandchild_process = say (codes "\n...In GrandChild process...\n") (
    say_pid (codes "My pid: %d\n")
      (say_ppid (codes "My parent pid: %d\n") (say (codes "My child pid: none\n") (exit 0))))

-- wait is called without a place for the status.
abbrev pub child_process : ℕ → Code
child_process grandchild_pid = wait (λ status. say (codes "\n...In Child process...\n") (
    say_pid (codes "My pid: %d\n") (
      say_ppid (codes "My parent pid: %d\n")
        (say_number (codes "My child pid: %d\n") grandchild_pid (exit 0)))))

abbrev pub after_second_fork : Fork → Code
after_second_fork in_child = grandchild_process
after_second_fork (in_parent grandchild_pid) = child_process grandchild_pid
after_second_fork failed = exit 0

abbrev pub parent_process : ℕ → Code
parent_process child_pid = wait (λ status. say (codes "\n...In Parent process...\n") (
    say_pid (codes "My pid: %d\n") (
      say_ppid (codes "My parent pid: %d\n")
        (say_number (codes "My child pid: %d\n") child_pid (say (codes "\nEnd\n") (exit 0))))))

abbrev pub after_first_fork : Fork → Code
after_first_fork in_child = fork after_second_fork
after_first_fork (in_parent child_pid) = parent_process child_pid
after_first_fork failed = say (codes "Fork failed") (exit 0)

unfoldable pub family : Code
family = say (codes "\nBegin\n") (fork after_first_fork)
