-- ===== src/Synch/Wakeups.antt =====
-- No call of synch.c and thread.c loses a wakeup.
use cse4300_project.Prelude.{ℕ, ◌≡◌, ◌≢◌, ◌≤◌, length, refl, none, arith}
use cse4300_project.Platform.{Ptr, Platform, Laws}
use cse4300_project.Platform.Arrays.{length-reject}
use cse4300_project.Kernel.{Kernel, Lock, ok, waits}
use cse4300_project.Thread.Switch.{thread_yield}
use cse4300_project.Thread.Conservation.{Healthy}
use cse4300_project.Thread.Yielding.{yielded, thread_yield_lem}
use cse4300_project.Synch.Semaphore.{p_start}
use cse4300_project.Synch.Lock.{lock_acquire}
use cse4300_project.Synch.Cv.{cv_wait}
use cse4300_project.Synch.Acquire.{masked, lock_acquire-enter, p_start-enter}
use cse4300_project.Synch.Conditions.{Holds, freed, cv_wait-asleep, cv_broadcast-AllWoken}
use cse4300_project.Synch.Waiting.{
  NoLostWakeup, v_run-NoLostWakeup, lock_release-NoLostWakeup, woken-NoLostWakeup,
  freed-NoLostWakeup,
}
use cse4300_project.Synch.Waiting.Rounds.{
  p_round-NoLostWakeup, acquire_round-NoLostWakeup, asleep_on-NoLostWakeup,
}
use cse4300_project.Synch.Calls.{
  Call, p, v, acquire, release, wait, broadcast, yield, dropped, perform, MayBlock, Counts,
  MayAcquire, CanCall, may_wake, may_add, may_switch,
}

module _ ⦃os : Platform⦄ (laws : Laws os) (n : ℕ) where
  open laws use {view, queued}

  -- An address on which a call may sleep belongs to one kind of primitive.
  abbrev pub IsApart : Kernel → Call → Type 0
  IsApart k (p sem) = k.locks sem ≡ none
  IsApart k (v sem) = Unit
  IsApart k (acquire lock) = k.semaphores lock ≡ none
  IsApart k (release lock) = Unit
  IsApart k (wait cv lock) = (k.semaphores cv ≡ none) × (k.locks cv ≡ none)
  IsApart k (broadcast cv lock) = Unit
  IsApart k yield = Unit

  -- The interrupt level does not count.
  at_level :
      (k : Kernel) (level : ℕ)
      → NoLostWakeup laws k
      → NoLostWakeup laws (record k { curspl = level })
  at_level k level inv = record { semaphores = inv.semaphores; locks = inv.locks }

  abbrev Wakes : Call → Kernel → Type 0
  Wakes c k = (k' : Kernel) × (perform c k ≡ ok (tt, k')) × NoLostWakeup laws k'

  p-Wakes :
      (sem : Ptr) (k : Kernel)
      → Healthy laws n k
      → NoLostWakeup laws k
      → Counts laws n k sem
      → MayBlock laws n k
      → k.locks sem ≡ none
      → Wakes (p sem) k
  unfolding perform
  p-Wakes sem k h inv c b no_lock =
      let (r, k', run, inv') =
        p_round-NoLostWakeup laws sem k.curspl (masked laws k) h.current.thread h.sleepers
          c.semaphore (at_level k _ inv) (may_switch laws n k h) b.quiet h.array
          (may_add laws n k h) c.found (omega (arith, c.fits)) no_lock in
      (
        k',
        dropped (p_start sem) k k' (k.curspl, r)
            (p_start-enter laws sem k c.semaphore c.real c.found r k' (ground (arith, b.quiet))
              run),
        inv',
      )

  acquire-Wakes :
      (lock : Ptr) (k : Kernel)
      → Healthy laws n k
      → NoLostWakeup laws k
      → MayAcquire laws n k lock
      → MayBlock laws n k
      → k.semaphores lock ≡ none
      → Wakes (acquire lock) k
  unfolding perform
  acquire-Wakes lock k h inv c b no_semaphore =
      let (r, k', run, inv') =
        acquire_round-NoLostWakeup laws lock k.curspl (masked laws k) h.current.thread h.sleepers
          c.state (at_level k _ inv) (may_switch laws n k h) b.quiet h.array (may_add laws n k h)
          c.found no_semaphore in
      (
        k',
        dropped (lock_acquire lock) k k' (k.curspl, r)
            (lock_acquire-enter laws lock k c.state c.real c.found r k' (ground (arith, c.other))
              run),
        inv',
      )

  wait-Wakes :
      (cv lock : Ptr) (k : Kernel) (l : Lock)
      → Healthy laws n k
      → NoLostWakeup laws k
      → cv ≢ 0
      → Holds laws k lock l
      → MayBlock laws n k
      → IsApart k (wait cv lock)
      → Wakes (wait cv lock) k
  unfolding perform
  wait-Wakes cv lock k l h inv real held b (no_semaphore, no_lock) =
      let (s, q, run, w) =
        cv_wait-asleep laws cv lock k l real held h.current.thread h.sleepers n
          (may_wake laws n k h) (may_switch laws n k h) b.quiet (omega (arith, h.fits)) in
      let f = freed laws cv lock k l real held s q in
      let short : length (view s) ≤ length (view h.sleepers) =
        rw (w.0) (length-reject (waits k.threads lock) (view h.sleepers)) in
      let room = (laws.add-HasRoom s k.curthread n (w.3) (omega (arith, short, h.fits))).0 in
      let inv' : NoLostWakeup laws f =
        freed-NoLostWakeup laws lock k h.sleepers s n f.curspl q (record l { owner = 0 }) inv
          h.array w in
      let still_none : f.locks cv ≡ none = ground (arith, held.found, no_lock) in
      (
        _,
        dropped (cv_wait cv lock) k _ _ run,
        asleep_on-NoLostWakeup laws cv f h.current.thread s inv' refl room no_semaphore still_none,
      )

  yield-Wakes : (k : Kernel) → Healthy laws n k → NoLostWakeup laws k → Wakes yield k
  unfolding perform
  yield-Wakes k h inv =
      let runs =
        (laws.make_runnable-HasSlots k.runqueue k.curthread n h.slots (omega (arith, h.fits))).0 in
      let run = thread_yield_lem k h.sleepers h.current (laws.splhigh_pos k.curspl) h.array runs in
      (
        yielded k,
        dropped thread_yield k (yielded k) _ run,
        record { semaphores = inv.semaphores; locks = inv.locks },
      )

  -- No call loses a wakeup: P, V, lock_acquire, lock_release, cv_wait, cv_broadcast and
  -- thread_yield, each up to its return or first sleep, go through without a fault and keep the
  -- invariant that nobody sleeps on a semaphore with a positive count or on a lock without owner.
  -- Conditions: the kernel is healthy and the caller may make the call, as for perform-Keeps, and
  -- the address on which the call may sleep belongs to one kind of primitive.
  pub perform-NoLostWakeup :
      (c : Call) (k : Kernel)
      → Healthy laws n k
      → NoLostWakeup laws k
      → CanCall laws n k c
      → IsApart k c
      → (k' : Kernel) × (perform c k ≡ ok (tt, k')) × NoLostWakeup laws k'
  unfolding perform
  perform-NoLostWakeup (p sem) k h inv (c, b) apart = p-Wakes sem k h inv c b apart
  perform-NoLostWakeup (v sem) k h inv c apart =
      v_run-NoLostWakeup laws sem k h.sleepers n c.semaphore inv (may_wake laws n k h) c.real
        c.found (ground (arith, c.fits))
  perform-NoLostWakeup (acquire lock) k h inv (c, b) apart = acquire-Wakes lock k h inv c b apart
  perform-NoLostWakeup (release lock) k h inv (l, held) apart =
      lock_release-NoLostWakeup laws lock k h.sleepers n l inv (may_wake laws n k h) held.real
        held.found held.mine
  perform-NoLostWakeup (wait cv lock) k h inv (l, real, held, b) apart =
      wait-Wakes cv lock k l h inv real held b apart
  perform-NoLostWakeup (broadcast cv lock) k h inv (l, real, held) apart =
      let (s, q, run, w) =
        cv_broadcast-AllWoken laws cv lock k l real held h.sleepers n (may_wake laws n k h) in
      (_, run, woken-NoLostWakeup laws cv k h.sleepers s n q inv h.array w)
  perform-NoLostWakeup yield k h inv c apart = yield-Wakes k h inv
