-- ===== src/Thread/Exiting.antt =====
-- What the loop of thread_exit over the children does to two of them.
use cse4300_project.Prelude.{
  ℕ, zero, suc, ◌<◌, ◌≡◌, ◌≢◌, refl, ap, ◌∙◌, true, [], ◌∷◌, Option, none, some, arith, ltb, length,
}
use cse4300_project.Platform.{Ptr, Platform, Laws, remove_at}
use cse4300_project.Platform.Arrays.{getguy_here}
use cse4300_project.Kernel.{Kernel, Thread, ok}
use cse4300_project.Thread.Join.{Child, thread_detach}
use cse4300_project.Thread.Search.{IsWhole}
use cse4300_project.Thread.Joining.{CanSearch, child}
use cse4300_project.Thread.Detaching.{detached, thread_detach_lem, detach_expected}
use cse4300_project.Thread.Exit.{detach_loop}

length-remove_at_two : (x y : Ptr) (i : ℕ) → i < 2 → length (remove_at (x ∷ y ∷ []) i) ≡ 1
length-remove_at_two x y zero h = refl
length-remove_at_two x y (suc zero) h = refl
length-remove_at_two x y (suc (suc i)) h = absurd (omega arith)

module _ ⦃os : Platform⦄ (laws : Laws os) {k : Kernel} {cur : Thread} {ch s z j : os.Arr}
    (can : CanSearch laws k cur ch s z j) where
  open laws use {view}

  detach_loop_stop :
      (fuel : ℕ) (k' : Kernel) (cur' : Thread) (a : os.Arr)
      → k'.threads k'.curthread ≡ some cur'
      → cur'.children ≡ some a
      → os.array_getnum a ≡ 1
      → detach_loop (suc fuel) 1 k' ≡ ok (tt, k')
  unfolding detach_loop
  detach_loop_stop fuel k' cur' a running children one = ground arith

  detach_loop_first :
      (fuel : ℕ) (x : Ptr) (t : Thread) (code : ℕ) (k' : Kernel)
      → ltb 0 (os.array_getnum ch) ≡ true
      → os.array_getguy ch 0 ≡ x
      → k.threads x ≡ some t
      → IsWhole t
      → thread_detach t.t_pid.value k ≡ ok (code, k')
      → detach_loop (suc fuel) 0 k ≡ detach_loop fuel 1 k'
  unfolding detach_loop
  detach_loop_first fuel x t code k' more here found w run =
      ground (arith, can.running, can.children, w.pid_live, run)

  -- For a thread with exactly two children, the loop of thread_exit over the children ends after
  -- one detach: only the last child with the first one's pid is taken off the children and marked
  -- detached, and the other stays a child that is not detached. Conditions: the arrays point to
  -- threads whose members are allocated, and the child found is one of the two, is not the exiting
  -- thread, and is not detached before.
  pub detach_loop-two :
      (x y : Ptr) (t : Thread) (c : Child) (u : Thread)
      → view ch ≡ x ∷ y ∷ []
      → k.threads x ≡ some t
      → IsWhole t
      → child laws k cur ch t.t_pid.value ≡ some c
      → c.index < 2
      → k.threads c.at ≡ some u
      → u.is_detached.value ≡ 0
      → c.at ≢ k.curthread
      → detach_loop (suc (os.array_getnum ch)) 0 k ≡ ok (tt, detached laws can c u)
  detach_loop-two x y t c u two found w last inside found_u attached apart =
      detach_loop_first (os.array_getnum ch) x t 0 (detached laws can c u) (ground (arith, size))
        (getguy_here laws ch [] x (y ∷ []) two) found w once
      ∙ ap (λ fuel. detach_loop fuel 1 (detached laws can c u)) size
      ∙ detach_loop_stop 1 (detached laws can c u)
          (record cur { children = some (os.array_remove ch c.index) }) (os.array_remove ch c.index)
          (ground (arith, can.running)) refl
          (laws.getnum-view (os.array_remove ch c.index)
            ∙ ap length (laws.remove-view ch c.index (omega (arith, ap length two)))
            ∙ ap (λ xs. length (remove_at xs c.index)) two
            ∙ length-remove_at_two x y c.index inside)
    where
      size : os.array_getnum ch ≡ 2
      size = laws.getnum-view ch ∙ ap length two

      once : thread_detach t.t_pid.value k ≡ ok (0, detached laws can c u)
      once =
          thread_detach_lem laws can t.t_pid.value (λ c' e.
            let same : ◌≡◌ {A = Option Child} (some c) (some c') = cc in
            let at_same : c.at ≡ c'.at =
              ap (λ (o : Option Child). elim o [ none ↦ 0 | some d ↦ d.at ]) same in
            rw (← at_same) apart)
          ∙ rw (last, detach_expected) (rw found_u (rw attached refl))
