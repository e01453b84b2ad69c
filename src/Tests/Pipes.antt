-- ===== src/Tests/Pipes.antt =====
-- One run of project_2/partB.c from the first fork to the last exit.
use cse4300_project.Prelude.{
  ℕ, zero, suc, ◌≤◌, ◌≡◌, refl, true, List, [], ◌∷◌, ◌++◌, Option, none, some,
}
use cse4300_project.Pipes.{
  p_exit, c_exit, g_exit, System, state, Process, parent, child, grandchild, step, start, Steps,
  none_yet, then_step, from_parent, from_child, from_grandchild, parent_step, child_step,
  grandchild_step,
}
use cse4300_project.Pipes.Liveness.{Finished}
use cse4300_project.Pipes.Main.{Steps-Finished}

abbrev after : Option System → (System → Option System) → Option System
after none f = none
after (some s) f = f s

-- The processes take their steps in the order of the list.
abbrev play : List Process → System → Option System
play [] s = some s
play (who ∷ ws) s = after (step true true who s) (play ws)

play-Steps :
    (ws : List Process) (n : ℕ) (s s' : System)
    → Steps true true n s
    → play ws s ≡ some s'
    → (m : ℕ) × Steps true true m s'
play-Steps [] n s s' run e = (n, rw (some_same s s' e) at run)
  where
    some_same : (s s' : System) → ◌≡◌ {A = Option System} (some s) (some s') → s ≡ s'
    some_same s s' e = cc
play-Steps (who ∷ ws) n s s' run e = go (play-Steps ws (suc n)) (step true true who s) refl e
  where
    go :
        ((t t' : System)
          → Steps true true (suc n) t
          → play ws t ≡ some t'
          → (m : ℕ) × Steps true true m t')
        → (o : Option System) → step true true who s ≡ o
        → after o (play ws) ≡ some s'
        → (m : ℕ) × Steps true true m s'
    go later none now rest = absurd (no_state rest)
      where
        no_state : ◌≡◌ {A = Option System} none (some s') → ⊥
        no_state x = cc
    go later (some t) now rest = later t s' (then_step who run now) rest

abbrev times : ℕ → Process → List Process
times zero who = []
times (suc n) who = who ∷ times n who

abbrev schedule : List Process
schedule =
    times 3 parent ++ times 4 child ++ times 48 grandchild ++ times 29 child ++ times 30 parent

abbrev last : System
last = state p_exit c_exit g_exit (record {
  pc = [];
  cg = [];
  gp = [];
  child_heard = from_parent;
  grandchild_heard = from_child;
  parent_heard = from_grandchild;
})

played : play schedule start ≡ some last
unfolding step parent_step child_step grandchild_step
played = refl

run_to_last : (m : ℕ) × Steps true true m last
run_to_last = play-Steps schedule 0 start last none_yet played

Steps-Finished_example :
    (run_to_last.0 ≤ 117) × (((who : Process) → step true true who last ≡ none) → Finished last)
Steps-Finished_example = Steps-Finished (run_to_last.1)
