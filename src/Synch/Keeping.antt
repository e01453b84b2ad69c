-- ===== src/Synch/Keeping.antt =====
-- Every call of thread.c and synch.c keeps the threads of a healthy kernel.
mod Runs
use cse4300_project.Prelude.{ℕ, ◌≡◌, ap, some, arith}
use cse4300_project.Platform.{Platform, Laws}
use cse4300_project.Kernel.{Kernel, ok}
use cse4300_project.Thread.Population.{Keeps}
use cse4300_project.Thread.Conservation.{Healthy, moved-Keeps}
use cse4300_project.Synch.Runs.{v_run-AllWoken, lock_release-AllWoken}
use cse4300_project.Synch.Conditions.{cv_broadcast-AllWoken}
use cse4300_project.Synch.Calls.{
  Call, p, v, acquire, release, wait, broadcast, yield, perform, CanCall, may_wake,
}
use cse4300_project.Synch.Keeping.Runs.{
  retabled-Keeps, p_perform, acquire_perform, wait_perform, yield_perform,
}

module _ ⦃os : Platform⦄ (laws : Laws os) (n : ℕ) where
  -- No call loses or doubles a thread: P, V, lock_acquire, lock_release, cv_wait, cv_broadcast and
  -- thread_yield, each up to its return or first sleep, go through without a fault, keep the
  -- kernel healthy (every thread known to it is allocated with its magic number intact, and the
  -- sleepers array and the run queue have room for all of them), and leave every thread as often
  -- among the current one, the run queue and the sleepers as before. Conditions: the kernel is
  -- healthy; the semaphore or lock is allocated, and the count stays positive as an int when it
  -- goes up; lock_release, cv_wait and cv_broadcast come from the owner, lock_acquire does not;
  -- and for a call that may sleep, another thread is ready and no interrupt is being handled.
  pub perform-Keeps :
      (c : Call) (k : Kernel)
      → Healthy laws n k
      → CanCall laws n k c
      → (k' : Kernel) × (perform c k ≡ ok (tt, k')) × Keeps laws n k k'
  unfolding perform
  perform-Keeps (p sem) k h (c, b) = p_perform laws n sem k h c b
  perform-Keeps (v sem) k h c =
      let (s, q, run, w) =
        v_run-AllWoken laws sem k h.sleepers n c.semaphore (may_wake laws n k h) c.real c.found
          (ground (arith, c.fits)) in
      (
        _,
        run,
        retabled-Keeps laws n k (record k { sleepers = some s; runqueue = q }) k.curspl _ k.locks
            (moved-Keeps laws n k h sem s q w),
      )
  perform-Keeps (acquire lock) k h (c, b) = acquire_perform laws n lock k h c b
  perform-Keeps (release lock) k h (l, held) =
      let (s, q, run, w) =
        lock_release-AllWoken laws lock k h.sleepers n l (may_wake laws n k h) held.real held.found
          held.mine in
      (
        _,
        run,
        retabled-Keeps laws n k (record k { sleepers = some s; runqueue = q }) k.curspl k.semaphores
            _ (moved-Keeps laws n k h lock s q w),
      )
  perform-Keeps (wait cv lock) k h (l, real, held, b) =
      wait_perform laws n cv lock k l h real held b
  perform-Keeps (broadcast cv lock) k h (l, real, held) =
      let (s, q, run, w) =
        cv_broadcast-AllWoken laws cv lock k l real held h.sleepers n (may_wake laws n k h) in
      (_, run, moved-Keeps laws n k h cv s q w)
  perform-Keeps yield k h c = yield_perform laws n k h
