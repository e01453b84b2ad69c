-- ===== src/Thread/Detaching.antt =====
-- What thread_detach returns, and what it leaves of the kernel.
use cse4300_project.Prelude.{ℕ, ◌≡◌, ◌≢◌, refl, ◌∙◌, Option, none, some, arith, ◌==◌, if◌then◌else◌}
use cse4300_project.Platform.{Platform, Laws}
use cse4300_project.Kernel.{Kernel, Thread, Result, ok, fault, null_pointer, update}
use cse4300_project.Thread.Join.{
  Child, detach_found, drop_child, drop_joinable, thread_detach, einval,
}
use cse4300_project.Thread.Search.{IsWhole}
use cse4300_project.Thread.Joining.{
  CanSearch, child, child-Real, search_child, search_rest, real-ne-null,
}

module _ ⦃os : Platform⦄ (laws : Laws os) where
  open laws use {view}

  module _ {k : Kernel} {cur : Thread} {ch s z j : os.Arr}
      (can : CanSearch laws k cur ch s z j) where
    -- The kernel once the child has been detached.
    abbrev pub detached : Child → Thread → Kernel
    detached c t = record k {
      threads =
          update
            (update k.threads k.curthread
              (some (record cur { children = some (os.array_remove ch c.index) })))
            c.at (some (record t { is_detached = record t.is_detached { value = 1 } }));
    }

    detach_found_lem :
        (c : Child) (t : Thread)
        → c.at ≢ k.curthread
        → k.threads c.at ≡ some t
        → IsWhole t
        → detach_found c.at c.index none k
          ≡ (if t.is_detached.value == 1 then ok (einval, k) else ok (0, detached c t))
    unfolding detach_found drop_child drop_joinable
    detach_found_lem c t other e w =
        ground (arith, w.detached_live, w.exited_live, w.exit_live, can.running, can.children)

    detach_stranger :
        (pid : ℕ) → child laws k cur ch pid ≡ none → thread_detach pid k ≡ ok (einval, k)
    unfolding thread_detach
    detach_stranger pid missing =
        ground (arith, can.running, can.children, search_child laws can pid)

    detach_child :
        (pid : ℕ) (c : Child) (t : Thread)
        → child laws k cur ch pid ≡ some c
        → k.threads c.at ≡ some t
        → thread_detach pid k ≡ detach_found c.at c.index none k
    unfolding thread_detach
    detach_child pid c t found e = ground (
      arith,
      can.running,
      can.children,
      search_child laws can pid,
      search_rest laws can pid c.at (real-ne-null laws can c.at t e),
    )

    abbrev pub detach_expected : Option Child → Result (ℕ × Kernel)
    detach_expected none = ok (einval, k)
    detach_expected (some c) = elim (k.threads c.at) [
      | none ↦ fault null_pointer
      | some t ↦ if t.is_detached.value == 1 then ok (einval, k) else ok (0, detached c t)
    ]

    -- Where all arrays point to threads whose members are allocated and no thread is its own
    -- child, thread_detach returns EINVAL for a pid that is no child's or whose last matching
    -- child is detached; otherwise it returns 0, takes the child off the children and marks it
    -- detached, and changes nothing else.
    pub thread_detach_lem :
        (pid : ℕ)
        → ((c : Child) → child laws k cur ch pid ≡ some c → c.at ≢ k.curthread)
        → thread_detach pid k ≡ detach_expected (child laws k cur ch pid)
    thread_detach_lem pid apart = by_child (child laws k cur ch pid) refl
      where
        by_child :
            (o : Option Child)
            → child laws k cur ch pid ≡ o
            → thread_detach pid k ≡ detach_expected o
        by_child none missing = detach_stranger pid missing
        by_child (some c) found =
            let (t, e, w) = child-Real laws can pid c found in
            detach_child pid c t found e
            ∙ detach_found_lem c t (apart c found) e w
            ∙ rw (e, detach_expected) refl
