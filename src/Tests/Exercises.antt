-- ===== src/Tests/Exercises.antt =====
-- One run of each fork exercise on an operating system that gives out the pids from 100 on.
use cse4300_project.Prelude.{
  ℕ, zero, suc, ◌+◌, ◌≤◌, ◌≡◌, refl, Bool, true, false, List, [], ◌∷◌, ◌++◌, Option, none, some,
  ◌⊎◌, length,
}
use cse4300_project.Menu.Words.{codes}
use cse4300_project.Processes.{
  Os, exit, Line, line, Machine, begin, machine_step, Run, stop, go, IsStuck,
}
use cse4300_project.Exercises.Shuffles.{none_left, from_left, from_right, Shuffle}
use cse4300_project.Exercises.Family.{family}
use cse4300_project.Exercises.Family.Generations.{
  Came, family_lem, begin_line, of_grandchild, of_child, of_parent,
}
use cse4300_project.Exercises.ExitStatus.{
  fork_test, fork_test_lem, child_lines, parent_lines, last_lines,
}
use cse4300_project.Exercises.Copies.{fork_01, part_a_fork, fork_text}
use cse4300_project.Exercises.Copies.Reached.{Ends}
use cse4300_project.Exercises.Copies.Apart.{lines_of}
use cse4300_project.Exercises.Copies.Orders.{
  fork_01_lem, fork_01-Ends, part_a_fork_lem, fork_text_lem, Told, count, parent_tells, child_tells,
  show_variables,
}

abbrev os : Os
os = record { pid = λ i. 100 + i; shell_pid = 7; init_pid = 1 }

-- Process `i` takes the next step, and fork fails in it or not.
abbrev Turn : Type 0
Turn = Bool × ℕ

abbrev play : List Turn → Machine → Option Machine
play [] s = some s
play ((fails, i) ∷ ts) s = elim (machine_step os fails i s) [ none ↦ none | some t ↦ play ts t ]

play-Run : (ts : List Turn) (s s' : Machine) → play ts s ≡ some s' → Run os s (length ts) s'
play-Run [] s s' e = rw (some_same e) (stop s')
  where
    some_same : ◌≡◌ {A = Option Machine} (some s) (some s') → s ≡ s'
    some_same x = cc
play-Run ((fails, i) ∷ ts) s s' e = through (machine_step os fails i s) (play-Run ts) refl e
  where
    through :
        (o : Option Machine)
        → ((t s' : Machine) → play ts t ≡ some s' → Run os t (length ts) s')
        → machine_step os fails i s ≡ o
        → (elim o [ none ↦ none | some t ↦ play ts t ]) ≡ some s'
        → Run os s (suc (length ts)) s'
    through none later now e = absurd (none_some e)
      where
        none_some : ◌≡◌ {A = Option Machine} none (some s') → ⊥
        none_some x = cc
    through (some t) later now e = go fails i now (later t s' e)

abbrev times : ℕ → ℕ → List Turn
times zero i = []
times (suc n) i = (false, i) ∷ times n i

-- The system that a schedule leads to.
abbrev reached : Option Machine → Machine
reached none = begin (exit 0)
reached (some s) = s

abbrev turns_of_family : List Turn
turns_of_family = times 2 0 ++ times 1 1 ++ times 4 2 ++ times 5 1 ++ times 6 0

abbrev end_of_family : Machine
end_of_family = reached (play turns_of_family (begin family))

family-Run : Run os (begin family) 18 end_of_family
unfolding machine_step family
family-Run = play-Run turns_of_family (begin family) end_of_family refl

family_lem_example :
    (18 ≤ 18)
    × (IsStuck os end_of_family
        → Came end_of_family
            (true ∷ true ∷ [])
            (begin_line os ∷ (of_grandchild os ++ of_child os ++ of_parent os))
          ⊎ (Came end_of_family (true ∷ false ∷ []) (begin_line os ∷ of_parent os)
              ⊎ Came end_of_family
                  (false ∷ [])
                  (begin_line os ∷ line (codes "Fork failed") [] ∷ [])))
family_lem_example = family_lem os family-Run

abbrev turns_of_fork_test : List Turn
turns_of_fork_test = times 3 0 ++ times 7 1 ++ times 5 0

abbrev end_of_fork_test : Machine
end_of_fork_test = reached (play turns_of_fork_test (begin (fork_test 300 0)))

fork_test-Run : Run os (begin (fork_test 300 0)) 15 end_of_fork_test
unfolding machine_step fork_test
fork_test-Run = play-Run turns_of_fork_test (begin (fork_test 300 0)) end_of_fork_test refl

fork_test_lem_example :
    (15 ≤ 15)
    × (IsStuck os end_of_fork_test
        → ((end_of_fork_test.forks ≡ false ∷ []) × (end_of_fork_test.printed ≡ []))
          ⊎ ((ls : List Line) × Shuffle (child_lines os) (parent_lines os) ls
              × (end_of_fork_test.forks ≡ true ∷ [])
              × (end_of_fork_test.printed ≡ ls ++ last_lines 300)))
fork_test_lem_example = fork_test_lem os 300 0 fork_test-Run

-- The two processes take turns.
abbrev turns_of_fork_01 : List Turn
turns_of_fork_01 = times 5 0 ++ times 10 1 ++ times 6 0

abbrev end_of_fork_01 : Machine
end_of_fork_01 = reached (play turns_of_fork_01 (begin (fork_01 0)))

fork_01-Run : Run os (begin (fork_01 0)) 21 end_of_fork_01
unfolding machine_step fork_01
fork_01-Run = play-Run turns_of_fork_01 (begin (fork_01 0)) end_of_fork_01 refl

fork_01_lem_example :
    (21 ≤ 21)
    × (IsStuck os end_of_fork_01
        → Told [] (lines_of 100 count) (lines_of 101 count) (lines_of 100 count) end_of_fork_01)
fork_01_lem_example = fork_01_lem os 0 fork_01-Run

abbrev turns_of_fork_text : List Turn
turns_of_fork_text = times 2 0 ++ times 5 1 ++ times 4 0

abbrev end_of_fork_text : Machine
end_of_fork_text = reached (play turns_of_fork_text (begin (fork_text 0)))

fork_text-Run : Run os (begin (fork_text 0)) 11 end_of_fork_text
unfolding machine_step fork_text
fork_text-Run = play-Run turns_of_fork_text (begin (fork_text 0)) end_of_fork_text refl

fork_text_lem_example :
    (11 ≤ 11)
    × (IsStuck os end_of_fork_text
        → Told []
            (lines_of 100 (show_variables (codes "Parent Process:") 2 20))
            (lines_of 101 (show_variables (codes "Child Process: ") 3 21))
            []
            end_of_fork_text)
fork_text_lem_example = fork_text_lem os 0 fork_text-Run

abbrev turns_of_part_a_fork : List Turn
turns_of_part_a_fork = times 3 0 ++ times 4 1 ++ times 3 0

abbrev end_of_part_a_fork : Machine
end_of_part_a_fork = reached (play turns_of_part_a_fork (begin part_a_fork))

part_a_fork-Run : Run os (begin part_a_fork) 10 end_of_part_a_fork
unfolding machine_step part_a_fork
part_a_fork-Run = play-Run turns_of_part_a_fork (begin part_a_fork) end_of_part_a_fork refl

part_a_fork-Told :
    (10 ≤ 10)
    × (IsStuck os end_of_part_a_fork
        → Told
            (line (codes "\nBefore fork\n") [] ∷ [])
            (lines_of 100 (parent_tells os))
            (lines_of 101 (child_tells os))
            (line (codes "\nAfter fork\n") [] ∷ line (codes "Error") [] ∷ [])
            end_of_part_a_fork)
part_a_fork-Told = part_a_fork_lem os part_a_fork-Run

-- All lines of the first process, and then all of the other.
first_then_second : {A : Type 0} (xs ys : List A) → Shuffle xs ys (xs ++ ys)
first_then_second [] [] = none_left
first_then_second [] (y ∷ ys) = from_right (first_then_second [] ys)
first_then_second (x ∷ xs) ys = from_left (first_then_second xs ys)

fork_01-Ends_example : Ends os (begin (fork_01 0)) (lines_of 100 count ++ lines_of 101 count)
fork_01-Ends_example =
    fork_01-Ends os 0 (first_then_second (lines_of 100 count) (lines_of 101 count))
