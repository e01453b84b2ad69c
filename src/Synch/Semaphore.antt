-- ===== src/Synch/Semaphore.antt =====
-- Semaphores (synch.c). A call of P that sleeps ends there; the rest is `p_resumed`.
use cse4300_project.Prelude.{ℕ, ◌+◌, ◌-◌, ◌^◌, not, none, some, ◌==◌, if◌then◌else◌}
use cse4300_project.Platform.{Ptr, Platform}
use cse4300_project.Kernel.{
  K, Semaphore, ok, int32, is_positive, is_nonneg, pure, ◌>>=◌, ◌>>◌, assert, get, put, live,
  kmalloc, kstrdup, kfree, splhigh, splx, update,
}
use cse4300_project.Thread.Switch.{thread_sleep, thread_sleep_resumed}
use cse4300_project.Thread.Sleep.{thread_wakeup, thread_hassleepers}

-- How far a call has come: it sleeps, or it has returned.
pub data Outcome : Type 0 where
  asleep returned : Outcome

module _ ⦃os : Platform⦄ where
  abbrev pub semaphore_at : Ptr → K Semaphore
  semaphore_at p = do k ← get; live (k.semaphores p)

  abbrev pub store_semaphore : Ptr → Semaphore → K (Unit {0})
  store_semaphore p s k = ok (tt, record k { semaphores = update k.semaphores p (some s) })

  -- The result is the address, or NULL.
  unfoldable pub sem_create : Ptr → ℕ → K Ptr
  sem_create namearg initial_count = do
    assert (is_nonneg initial_count)
    b ← kmalloc
    let named = (do
      name ← kstrdup namearg
      let unnamed = (do kfree b.at; pure 0)
      let filled = (do
        store_semaphore b.at (record { name = name; count = initial_count })
        pure b.at)
      if name == 0 then unnamed else filled)
    if b.at == 0 then pure 0 else named

  unfoldable pub sem_destroy : Ptr → K (Unit {0})
  sem_destroy sem = do
    assert (not (sem == 0))
    spl ← splhigh
    sleeping ← thread_hassleepers sem
    assert (sleeping == 0)
    splx spl
    s ← semaphore_at sem
    kfree s.name
    k ← get
    put (record k { semaphores = update k.semaphores sem none })
    kfree sem

  -- One test of the `while` of P, and what follows it.
  unfoldable pub p_round : Ptr → ℕ → K Outcome
  p_round sem spl = do
    s ← semaphore_at sem
    let sleep = (do thread_sleep sem; pure asleep)
    let take = (do
      assert (is_positive s.count)
      store_semaphore sem (record s { count = int32 (s.count + 2 ^ 32 - 1) })
      splx spl
      pure returned)
    if s.count == 0 then sleep else take

  -- P up to the return or the first sleep; the saved level goes on to `p_resumed`.
  unfoldable pub p_start : Ptr → K (ℕ × Outcome)
  p_start sem = do
    assert (not (sem == 0))
    k ← get
    assert (k.in_interrupt == 0)
    spl ← splhigh
    outcome ← p_round sem spl
    pure (spl, outcome)

  -- The thread runs again: thread_sleep returns, and the test is made once more.
  unfoldable pub p_resumed : Ptr → ℕ → K Outcome
  p_resumed sem spl = do thread_sleep_resumed; p_round sem spl

  -- V
  unfoldable pub v_run : Ptr → K (Unit {0})
  v_run sem = do
    assert (not (sem == 0))
    spl ← splhigh
    s ← semaphore_at sem
    let count = int32 (s.count + 1)
    store_semaphore sem (record s { count = count })
    assert (is_positive count)
    thread_wakeup sem
    splx spl
