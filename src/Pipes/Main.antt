-- ===== src/Pipes/Main.antt =====
-- The whole of project_2/partB.c, where both forks succeed.
use cse4300_project.Prelude.{ℕ, ◌+◌, ◌≤◌, ◌<◌, ◌≡◌, refl, ap, arith, true, none, some}
use cse4300_project.Pipes.{
  System, state, Process, parent, child, grandchild, step, start, Steps, none_yet, then_step,
}
use cse4300_project.Pipes.Places.{Holds}
use cse4300_project.Pipes.ParentSteps.{parent_keeps}
use cse4300_project.Pipes.ChildSteps.{child_keeps}
use cse4300_project.Pipes.GrandchildSteps.{grandchild_keeps}
use cse4300_project.Pipes.Ending.{measure, Below, parent_shrinks, child_shrinks, grandchild_shrinks}
use cse4300_project.Pipes.Liveness.{is_stuck, Finished, stuck-Finished}

abbrev left : System → ℕ
left (state p c g w) = measure p c g w

step-Holds : (who : Process) (s : System) → Holds (some s) → Holds (step true true who s)
unfolding step
step-Holds parent (state p c g w) v = parent_keeps p c g w v
step-Holds child (state p c g w) v = child_keeps p c g w v
step-Holds grandchild (state p c g w) v = grandchild_keeps p c g w v

step-Below : (who : Process) (s : System) → Holds (some s) → Below (left s) (step true true who s)
unfolding step
step-Below parent (state p c g w) v = parent_shrinks p c g w v.order
step-Below child (state p c g w) v = child_shrinks p c g w v.order'
step-Below grandchild (state p c g w) v = grandchild_shrinks p c g w

Below-left : (m : ℕ) (s : System) → Below m (some s) → left s < m
Below-left m (state p c g w) h = h

Steps-Holds :
    {n : ℕ} {s : System} → Steps true true n s → Holds (some s) × (n + left s ≤ left start)
Steps-Holds none_yet = (
  record { order = refl; order' = refl; pc = (refl, refl); cg = (refl, refl); gp = (refl, refl) },
  omega arith,
)
Steps-Holds (then_step {n} {s} {s'} who run e) =
    let (v, fits) = Steps-Holds run in
    (
      rw e at (step-Holds who s v),
      let less : left s' < left s = Below-left (left s) s' (rw e at (step-Below who s v)) in
          omega (arith, less, fits),
    )

stuck-Finished_lem :
    (s : System) → Holds (some s) → ((who : Process) → step true true who s ≡ none) → Finished s
unfolding step
stuck-Finished_lem (state p c g w) v stuck =
    stuck-Finished p c g w v (ap is_stuck (stuck parent)) (ap is_stuck (stuck child))
      (ap is_stuck (stuck grandchild))

-- Where both forks succeed, every run of the three processes of partB.c, in any order of their
-- steps, ends after at most 117 steps, and where none of the three can go on, all have exited and
-- each has printed exactly the message that was written to it: nobody waits for ever, and nobody
-- is ended by a write to a pipe that nobody reads.
pub Steps-Finished :
    {n : ℕ} {s : System}
    → Steps true true n s
    → (n ≤ 117) × (((who : Process) → step true true who s ≡ none) → Finished s)
Steps-Finished {n} {s} run =
    let (v, fits) = Steps-Holds run in (omega (arith, fits), stuck-Finished_lem s v)
