-- ===== src/Synch/Cv.antt =====
-- Condition variables (synch.c). A call of cv_wait always sleeps; `wait_resumed` runs after that,
-- and `wait_acquired` where the lock was taken by somebody else meanwhile.
use cse4300_project.Prelude.{ℕ, not, none, some, ◌==◌, if◌then◌else◌}
use cse4300_project.Platform.{Ptr, Platform}
use cse4300_project.Kernel.{
  K, pure, ◌>>=◌, ◌>>◌, assert, get, put, live, kmalloc, kstrdup, kfree, splhigh, splx, update,
}
use cse4300_project.Thread.Switch.{thread_sleep, thread_sleep_resumed}
use cse4300_project.Thread.Sleep.{thread_wakeup, thread_wakeone}
use cse4300_project.Synch.Semaphore.{Outcome, asleep, returned}
use cse4300_project.Synch.Lock.{lock_do_i_hold, lock_release, lock_acquire, acquire_resumed}

module _ ⦃os : Platform⦄ where
  -- The result is the address, or NULL.
  unfoldable pub cv_create : Ptr → K Ptr
  cv_create namearg = do
    b ← kmalloc
    let named = (do
      name ← kstrdup namearg
      let unnamed = (do kfree b.at; pure 0)
      let filled = (do
        k ← get
        put (record k { cvs = update k.cvs b.at (some (record { name = name })) })
        pure b.at)
      if name == 0 then unnamed else filled)
    if b.at == 0 then pure 0 else named

  unfoldable pub cv_destroy : Ptr → K (Unit {0})
  cv_destroy cv = do
    assert (not (cv == 0))
    k ← get
    c ← live (k.cvs cv)
    kfree c.name
    k ← get
    put (record k { cvs = update k.cvs cv none })
    kfree cv

  -- The assertions that the three operations begin with.
  unfoldable pub check_held : Ptr → Ptr → K (Unit {0})
  check_held cv lock = do
    assert (not (lock == 0))
    assert (not (cv == 0))
    held ← lock_do_i_hold lock
    assert held

  -- cv_wait up to its sleep; the saved level goes on to `wait_resumed`.
  unfoldable pub cv_wait : Ptr → Ptr → K ℕ
  cv_wait cv lock = do
    check_held cv lock
    spl ← splhigh
    lock_release lock
    thread_sleep cv
    pure spl

  -- `splx(spl)` once lock_acquire has returned.
  abbrev finish : ℕ → Outcome → K Outcome
  finish spl asleep = pure asleep
  finish spl returned = do splx spl; pure returned

  -- The sleep on the cv is over: lock_acquire, which may sleep on the lock. Its own saved level is
  -- handed on with the outcome.
  unfoldable pub wait_resumed : Ptr → ℕ → K (ℕ × Outcome)
  wait_resumed lock spl = do
    thread_sleep_resumed
    (inner, outcome) ← lock_acquire lock
    outcome ← finish spl outcome
    pure (inner, outcome)

  -- A sleep on the lock within cv_wait is over.
  unfoldable pub wait_acquired : Ptr → ℕ → ℕ → K Outcome
  wait_acquired lock inner spl = do outcome ← acquire_resumed lock inner; finish spl outcome

  -- `i` is what the uninitialised index of thread_wakeone holds.
  unfoldable pub cv_signal : ℕ → Ptr → Ptr → K (Unit {0})
  cv_signal i cv lock = do check_held cv lock; spl ← splhigh; thread_wakeone i cv; splx spl

  unfoldable pub cv_broadcast : Ptr → Ptr → K (Unit {0})
  cv_broadcast cv lock = do check_held cv lock; spl ← splhigh; thread_wakeup cv; splx spl
