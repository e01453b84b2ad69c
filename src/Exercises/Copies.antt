-- ===== src/Exercises/Copies.antt =====
-- fork-01.c, partA_fork.c and fork_text.c: after fork both processes print, with their own copy of
-- the variables, and neither waits. The status with which a void main ends is a parameter.
pub mod Apart
pub mod Forked
pub mod Reached
pub mod Orders
use cse4300_project.Prelude.{ℕ, zero, suc, ◌+◌, ◌-◌}
use cse4300_project.Menu.Words.{Word, codes}
use cse4300_project.Processes.{Fork, in_child, in_parent, failed, Code, exit, printf, fork}
use cse4300_project.Exercises.{say, say_pid, say_number}
use cse4300_project.Prelude.{List, [], ◌∷◌}

-- fork-01.c
abbrev pub max_count : ℕ
max_count = 10

-- The rest of the loop: `left` more lines, the next of which has the value `i`.
abbrev pub write_lines : ℕ → ℕ → Code → Code
write_lines zero i rest = rest
write_lines (suc left) i rest =
    printf (codes "This line is from pid %d, value = %d\n") (λ self parent. self ∷ i ∷ [])
      (write_lines left (suc i) rest)

-- The result of fork is not read.
unfoldable pub fork_01 : ℕ → Code
fork_01 status = fork (λ result. write_lines max_count 1 (exit status))

-- partA_fork.c
abbrev pub tell : Fork → Code
tell in_child =
    say (codes "\n...In Child process...\n")
      (say_pid (codes "My pid: %d\n") (say_number (codes "My copied pid: %d\n") 0 (exit 0)))
tell (in_parent child_pid) =
    say (codes "\n...Parent process...\n")
      (say_pid (codes "My PID: %d\n") (say_number (codes "My Childs pid: %d\n") child_pid (exit 0)))
tell failed = say (codes "Error") (exit 0)

unfoldable pub part_a_fork : Code
part_a_fork =
    say (codes "\nBefore fork\n")
      (fork (λ child_pid. say (codes "\nAfter fork\n") (tell child_pid)))

-- fork_text.c
abbrev pub global_variable : ℕ
global_variable = 2

abbrev pub i_stack_variable : ℕ
i_stack_variable = 20

abbrev pub print_variables : ℕ → Word → ℕ → ℕ → Code
print_variables status identifier global stack = say identifier (
    say (codes " Global variable: ") (
      say_number (codes "%d") global
        (say (codes " Stack variable: ") (say_number (codes "%d\n") stack (exit status)))))

-- cerr is not standard output.
abbrev pub variables_forked : ℕ → Fork → Code
variables_forked status in_child =
    print_variables status (codes "Child Process: ") (suc global_variable) (suc i_stack_variable)
variables_forked status failed = exit 1
variables_forked status (in_parent p_id) =
    print_variables status (codes "Parent Process:") global_variable i_stack_variable

unfoldable pub fork_text : ℕ → Code
fork_text status = fork (variables_forked status)
