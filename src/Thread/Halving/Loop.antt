-- ===== src/Thread/Halving/Loop.antt =====
-- The loop of thread_exit over the children, from its first round to its end.
use cse4300_project.Prelude.{
  ℕ, zero, suc, ◌+◌, ◌/◌, ◌≤◌, ◌<◌, ◌≡◌, ◌∙◌, List, [], arith, ltb, ltb→lt, length, inl, inr,
  Bool-cases,
}
use cse4300_project.Platform.{Ptr, Platform, Laws}
use cse4300_project.Kernel.{Kernel, Thread, ok}
use cse4300_project.Thread.Population.{occurrences}
use cse4300_project.Thread.Joining.{CanSearch}
use cse4300_project.Thread.Attached.{IsDistinct}
use cse4300_project.Thread.Exit.{detach_loop}
use cse4300_project.Thread.Halving.{AreAttached, left, after_start}
use cse4300_project.Thread.Halving.State.{Looping}
use cse4300_project.Thread.Halving.Rounds.{detach_loop-next, detach_loop-end}

module _ ⦃os : Platform⦄ (laws : Laws os) {k : Kernel} {cur : Thread} {ch s z j : os.Arr}
    (can : CanSearch laws k cur ch s z j) where
  open laws use {view}

  module _ (attached : AreAttached k.threads cur.t_pid.value k.curthread (view ch))
      (distinct : IsDistinct (view ch)) where
    -- How the loop ends.
    abbrev pub Halved : ℕ → ℕ → Kernel → Type 0
    Halved fuel i k' =
        (a : os.Arr) × (gone : List Ptr) × (detach_loop fuel i k' ≡ ok (tt, left laws can a gone))
        × (length (view a) ≡ length (view ch) / 2)
        × ((p : Ptr) → occurrences p (view a) + occurrences p gone ≡ occurrences p (view ch))

    detach_loop-Halved :
        (fuel : ℕ) (a : os.Arr) (gone : List Ptr) (i : ℕ)
        → Looping laws can attached distinct a gone i
        → length (view a) < fuel + i
        → 0 < fuel
        → Halved fuel i (left laws can a gone)
    detach_loop-Halved zero a gone i st h more = absurd (omega arith)
    detach_loop-Halved (suc fuel) a gone i st h more = elim (Bool-cases (ltb i (length (view a)))) [
      | inl inside ↦
          let less = ltb→lt i (length (view a)) inside in
          let (a', gone', next, step) =
            detach_loop-next laws can attached distinct a gone i st less in
          let (b, out, run, half, split) =
            detach_loop-Halved fuel a' gone' (i + 1) next (omega (arith, next.size, st.size, h))
              (omega (arith, h, less)) in
          (b, out, step fuel ∙ run, half, split)
      | inr done ↦ (
        a,
        gone,
        detach_loop-end laws can attached distinct a gone i st fuel
            (ground (arith, laws.getnum-view a)),
        (let past : length (view a) ≤ i = ground (arith, done) in
            omega (arith, past, st.size, st.behind)),
        st.split,
      )
    ]

    -- The loop ends, and one half of the children, rounded down, are still children, while the
    -- others are detached.
    pub detach_loop-halves :
        (a : os.Arr) × (gone : List Ptr) × (detach_loop (suc (os.array_getnum ch)) 0 k
          ≡ ok (tt, left laws can a gone))
        × (length (view a) ≡ length (view ch) / 2)
        × ((p : Ptr) → occurrences p (view a) + occurrences p gone ≡ occurrences p (view ch))
    detach_loop-halves = rw (← after_start laws can) at (
        detach_loop-Halved (suc (os.array_getnum ch)) ch [] 0
          (record { split = λ p. omega arith; size = omega arith; behind = omega arith })
          (omega (arith, laws.getnum-view ch)) (omega arith))
