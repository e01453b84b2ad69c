-- ===== src/Thread/Forking/Run.antt =====
-- thread_fork of thread.c as a whole: the new thread in a healthy kernel.
use cse4300_project.Prelude.{ℕ, ◌+◌, ◌≡◌, ◌≢◌, ◌∷◌, Bool, true, false, Option, none, some, arith}
use cse4300_project.Platform.{Ptr, Platform, kmalloc_call}
use cse4300_project.Kernel.{Kernel, K, ok, int32, pure, ◌>>◌}
use cse4300_project.Thread.Create.{thread_create}
use cse4300_project.Thread.Fork.{
  Stored, address_of_pid, thread_fork, furnish, reserve_and_run, adopt, disown,
}

module _ ⦃os : Platform⦄ where
  -- What follows the new thread's becoming runnable.
  abbrev pub joins_family : Ptr → Bool → K (ℕ × Option Stored)
  joins_family newguy true = do adopt newguy; pure (0, some address_of_pid)
  joins_family newguy false = do disown newguy; pure (0, none)

  -- The kernel before the preallocations, and the one after the new thread has been counted.
  abbrev pub masked : Kernel → Kernel
  masked k = record k { curspl = (os.splhigh k.curspl).1 }

  abbrev pub counted : ℕ → Kernel → Kernel
  counted level k = record k {
    numthreads = int32 (k.numthreads + 1);
    curspl = os.splx k.curspl level;
  }

  pub thread_fork_run :
      (name newguy : Ptr) (wants_pid : Bool) (k k1 k3 k5 : Kernel)
      → newguy ≢ 0
      → thread_create name k ≡ ok (newguy, k1)
      → (os.kmalloc k1.log).at ≢ 0
      → furnish newguy (os.kmalloc k1.log).at (record k1 { log = kmalloc_call ∷ k1.log })
        ≡ ok (tt, k3)
      → reserve_and_run newguy (masked k3) ≡ ok (0, k5)
      → thread_fork name wants_pid k
        ≡ joins_family newguy wants_pid (counted (os.splhigh k3.curspl).0 k5)
  unfolding thread_fork
  thread_fork_run name newguy true k k1 k3 k5 real made stack furnished room =
      ground (arith, made, furnished, room)
  thread_fork_run name newguy false k k1 k3 k5 real made stack furnished room =
      ground (arith, made, furnished, room)
