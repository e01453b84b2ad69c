-- ===== src/Thread/Adoption.antt =====
-- What thread_fork does for a child whose pid the parent wants.
use cse4300_project.Prelude.{
  ℕ, zero, suc, ◌+◌, ◌*◌, ◌<◌, ◌≡◌, ◌≢◌, refl, ◌∙◌, true, List, [], ◌∷◌, ◌++◌, some, arith, ltb,
  length,
}
use cse4300_project.Platform.{Ptr, Platform, Laws}
use cse4300_project.Platform.Arrays.{at_end, in_range, getguy_here, passed, length-snoc}
use cse4300_project.Kernel.{Kernel, Thread, ok, int32, update}
use cse4300_project.Thread.Search.{IsWhole}
use cse4300_project.Thread.Fork.{find_gap, adopt}

-- No entry is NULL.
abbrev pub AreReal : List Ptr → Type 0
AreReal [] = Unit
AreReal (p ∷ ps) = (p ≢ 0) × AreReal ps

module _ ⦃os : Platform⦄ (laws : Laws os) where
  open laws use {view}

  find_gap_step :
      (fuel i : ℕ) (a : os.Arr) (p : Ptr) (k : Kernel)
      → ltb i (os.array_getnum a) ≡ true
      → os.array_getguy a i ≡ p
      → p ≢ 0
      → find_gap (suc fuel) i a k ≡ find_gap fuel (i + 1) a k
  unfolding find_gap
  find_gap_step fuel i a p k more here real = ground arith

  find_gap-real :
      (fuel i : ℕ) (a : os.Arr) (pre xs : List Ptr) (k : Kernel)
      → i ≡ length pre
      → view a ≡ pre ++ xs
      → AreReal xs
      → length xs < fuel
      → find_gap fuel i a k ≡ ok (0, k)
  unfolding find_gap
  find_gap-real zero i a pre xs k j e v h = absurd (omega arith)
  find_gap-real (suc fuel) i a pre [] k j e v h = ground (arith, at_end laws a pre e)
  find_gap-real (suc fuel) i a pre (x ∷ xs) k j e v h =
      find_gap_step fuel i a x k (rw j (in_range laws a pre x xs e))
        (rw j (getguy_here laws a pre x xs e)) v.0
      ∙ find_gap-real fuel (i + 1) a (pre ++ x ∷ []) xs k (omega (arith, length-snoc pre x))
          (passed laws a pre x xs e) v.1 (omega arith)

  -- The child `t` with twice the pid of its parent `cur`.
  abbrev pub child_of : Thread → Thread → Thread
  child_of cur t = record t {
    is_detached = record t.is_detached { value = 0 };
    has_exited = record t.has_exited { value = 0 };
    t_exit = record t.t_exit { value = 0 };
    t_pid = record t.t_pid { value = int32 (cur.t_pid.value * 2) };
    parent = record t.parent { value = cur.t_pid.value };
  }

  -- Where no entry of the parent's children is NULL, thread_fork gives a child whose pid the
  -- parent wants twice the parent's pid, however many children there are; it appends the child to
  -- the children, records the parent's pid, and clears the exit code and the two flags.
  -- Conditions: both threads are allocated with their members, and they are two.
  pub adopt_lem :
      (newguy : Ptr) (k : Kernel) (cur t : Thread) (ch : os.Arr)
      → newguy ≢ k.curthread
      → k.threads k.curthread ≡ some cur
      → k.threads newguy ≡ some t
      → IsWhole cur
      → IsWhole t
      → cur.children ≡ some ch
      → AreReal (view ch)
      → adopt newguy k
        ≡ ok (
          tt,
          record k {
            threads =
                update
                  (update k.threads newguy (some (child_of cur t)))
                  k.curthread
                  (some (record cur { children = some (os.array_add ch newguy).value }));
          },
        )
  unfolding adopt
  adopt_lem newguy k cur t ch apart running found w w' children real = ground (
    arith,
    running,
    found,
    children,
    w.pid_live,
    w'.pid_live,
    w'.parent_live,
    w'.exit_live,
    w'.detached_live,
    w'.exited_live,
    find_gap-real (suc (os.array_getnum ch)) 0 ch [] (view ch) k refl refl real
        (omega (arith, laws.getnum-view ch)),
  )
