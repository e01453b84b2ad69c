-- ===== src/Exercises.antt =====
-- The fork exercises: partA.c of project_2, and fork-01.c, partA_fork.c, fork_text.c, fork_test.c and
-- fork.c in the top directory. What they write to stderr and how long they sleep is left out.
pub mod Family
pub mod Copies
pub mod ExitStatus
pub mod Shuffles
use cse4300_project.Prelude.{ℕ, List, [], ◌∷◌}
use cse4300_project.Menu.Words.{Word, codes}
use cse4300_project.Processes.{Code, exit, printf}

-- A line with no number, with the pid, with the parent's pid, and with a value of the program.
abbrev pub say : Word → Code → Code
say f c = printf f (λ self parent. []) c

abbrev pub say_pid : Word → Code → Code
say_pid f c = printf f (λ self parent. self ∷ []) c

abbrev pub say_ppid : Word → Code → Code
say_ppid f c = printf f (λ self parent. parent ∷ []) c

abbrev pub say_number : Word → ℕ → Code → Code
say_number f n c = printf f (λ self parent. n ∷ []) c

-- fork.c, which does not fork.
abbrev pub hello : Code
hello = say (codes "Hello World! \n") (exit 0)
