-- ===== src/Synch/Lock.antt =====
-- Locks (synch.c). A call of lock_acquire that sleeps ends there; the rest is `acquire_resumed`.
use cse4300_project.Prelude.{ℕ, Bool, not, none, some, ◌==◌, if◌then◌else◌}
use cse4300_project.Platform.{Ptr, Platform}
use cse4300_project.Kernel.{
  K, Lock, ok, pure, ◌>>=◌, ◌>>◌, assert, get, put, live, kmalloc, kstrdup, kfree, splhigh, splx,
  update,
}
use cse4300_project.Thread.Switch.{thread_sleep, thread_sleep_resumed}
use cse4300_project.Thread.Sleep.{thread_wakeup}
use cse4300_project.Synch.Semaphore.{Outcome, asleep, returned}

module _ ⦃os : Platform⦄ where
  abbrev pub lock_at : Ptr → K Lock
  lock_at p = do k ← get; live (k.locks p)

  abbrev pub store_lock : Ptr → Lock → K (Unit {0})
  store_lock p l k = ok (tt, record k { locks = update k.locks p (some l) })

  -- The result is the address, or NULL. `owner` keeps what the block's memory held.
  unfoldable pub lock_create : Ptr → K Ptr
  lock_create namearg = do
    b ← kmalloc
    let named = (do
      name ← kstrdup namearg
      let unnamed = (do kfree b.at; pure 0)
      let filled = (do store_lock b.at (record { name = name; owner = b.content }); pure b.at)
      if name == 0 then unnamed else filled)
    if b.at == 0 then pure 0 else named

  unfoldable pub lock_destroy : Ptr → K (Unit {0})
  lock_destroy lock = do
    assert (not (lock == 0))
    l ← lock_at lock
    kfree l.name
    k ← get
    put (record k { locks = update k.locks lock none })
    kfree lock

  unfoldable pub lock_do_i_hold : Ptr → K Bool
  lock_do_i_hold lock = do l ← lock_at lock; k ← get; pure (l.owner == k.curthread)

  -- One test of the `while` of lock_acquire, and what follows it.
  unfoldable pub acquire_round : Ptr → ℕ → K Outcome
  acquire_round lock spl = do
    l ← lock_at lock
    let sleep = (do thread_sleep lock; pure asleep)
    let take = (do
      assert (l.owner == 0)
      k ← get
      store_lock lock (record l { owner = k.curthread })
      splx spl
      pure returned)
    if l.owner == 0 then take else sleep

  -- lock_acquire up to the return or the first sleep.
  unfoldable pub lock_acquire : Ptr → K (ℕ × Outcome)
  lock_acquire lock = do
    assert (not (lock == 0))
    held ← lock_do_i_hold lock
    assert (not held)
    spl ← splhigh
    outcome ← acquire_round lock spl
    pure (spl, outcome)

  unfoldable pub acquire_resumed : Ptr → ℕ → K Outcome
  acquire_resumed lock spl = do thread_sleep_resumed; acquire_round lock spl

  unfoldable pub lock_release : Ptr → K (Unit {0})
  lock_release lock = do
    assert (not (lock == 0))
    held ← lock_do_i_hold lock
    assert held
    spl ← splhigh
    l ← lock_at lock
    store_lock lock (record l { owner = 0 })
    thread_wakeup lock
    splx spl
