-- ===== src/Synch/Locking.antt =====
-- The locks of synch.c do what the abstract ones do.
use cse4300_project.Prelude.{
  ℕ, ◌≡◌, refl, ◌∙◌, false, Option, some, arith, ◌==◌, if◌then◌else◌, inl, inr, Bool-cases,
}
use cse4300_project.Platform.{Ptr, Platform, Laws}
use cse4300_project.Kernel.{Kernel, Lock, ok, fault, assertion}
use cse4300_project.Thread.Sleeping.{asleep_on}
use cse4300_project.Thread.Population.{occurrences}
use cse4300_project.Thread.Conservation.{Healthy}
use cse4300_project.Synch.Semaphore.{Outcome, asleep, returned}
use cse4300_project.Synch.Lock.{lock_acquire, lock_release}
use cse4300_project.Synch.Runs.{lock_release-AllWoken, owned}
use cse4300_project.Synch.Acquire.{masked, lock_acquire_lem}
use cse4300_project.Synch.Conditions.{Holds}
use cse4300_project.Synch.Calls.{MayAcquire, MayBlock, may_wake, may_switch, may_add}
use cse4300_project.Synch.Abstract.{Primitive, take, give_up}
use cse4300_project.Synch.Shown.{seen, shown, woken-Becomes, stored-Becomes, joined-Becomes}

module _ ⦃os : Platform⦄ (laws : Laws os) where
  open laws use {view}

  abbrev owner_of : Lock → ℕ
  owner_of l = l.owner

  -- What the kernel shows of a lock.
  abbrev seen_lock : Kernel → Ptr → Option Primitive
  seen_lock k = seen laws owner_of k.locks k

  -- The lock has become `l`, and no other lock has changed.
  abbrev pub LockBecomes : Kernel → Ptr → Primitive → Kernel → Type 0
  LockBecomes k lock l k' =
      (q : Ptr) → seen_lock k' q ≡ (if lock == q then some l else seen_lock k q)

  module _ (n : ℕ) (k : Kernel) (h : Healthy laws n k) (lock : Ptr) where
    -- Lock_release by the owner refines the abstract lock in a healthy kernel: it returns, the
    -- lock is seen without an owner and nobody waits for it any longer, and what is seen of every
    -- other lock is unchanged. Condition: the lock is allocated.
    pub lock_release-refines :
        (l : Lock) (held : Holds laws k lock l)
        → (k' : Kernel) × (lock_release lock k ≡ ok (tt, k'))
          × LockBecomes k lock (give_up (shown laws owner_of n k h k.locks lock l held.found)) k'
    lock_release-refines l held =
        let (b, q, run, w) =
          lock_release-AllWoken laws lock k h.sleepers n l (may_wake laws n k h) held.real
            held.found held.mine in
        (
          _,
          run,
          woken-Becomes laws owner_of n k h k.locks lock l held.found (record l { owner = 0 }) b
              (w.0),
        )

    module _ (c : MayAcquire laws n k lock) where
      -- The lock before the call.
      abbrev pub before : Primitive
      before = shown laws owner_of n k h k.locks lock c.state c.found

      -- Lock_acquire by a thread that does not own the lock, up to its return or first sleep,
      -- refines the abstract lock, an owner with the threads that wait, in a healthy kernel: a
      -- free lock it returns with, owned by the current thread; at a held one the current thread
      -- waits behind the others that wait for it; what is seen of every other lock is unchanged.
      -- Conditions: the lock is allocated, another thread is ready, no interrupt is being handled,
      -- and the current thread is not among the sleepers.
      pub lock_acquire-refines :
          MayBlock laws n k
          → occurrences k.curthread (view h.sleepers) ≡ 0
          → (r : Outcome) × (k' : Kernel) × (lock_acquire lock k ≡ ok ((k.curspl, r), k'))
            × (r ≡ (take k.curthread before).0)
            × LockBecomes k lock (take k.curthread before).1 k'
      lock_acquire-refines b once = elim (Bool-cases (c.state.owner == 0)) [
        | inl free ↦ (
          returned,
          owned laws lock k.curspl k c.state,
          run ∙ rw (other, free) refl,
          rw free refl,
          rw free (
              stored-Becomes laws owner_of n k h k.locks lock c.state c.found
                (record c.state { owner = k.curthread })),
        )
        | inr held ↦ (
          asleep,
          asleep_on lock (masked laws k) h.current.thread h.sleepers,
          run ∙ rw (other, held) refl,
          rw held refl,
          rw held (joined-Becomes laws owner_of n k h k.locks lock c.state c.found once),
        )
      ]
        where
          other : (c.state.owner == k.curthread) ≡ false
          other = ground (arith, c.other)

          run : lock_acquire lock k ≡ (
              if c.state.owner == k.curthread
              then fault assertion
              else if c.state.owner == 0
              then ok ((k.curspl, returned), owned laws lock k.curspl k c.state)
              else ok
                  ((k.curspl, asleep), asleep_on lock (masked laws k) h.current.thread h.sleepers))
          run =
              lock_acquire_lem laws lock k c.state c.real c.found h.current.thread h.sleepers
                (may_switch laws n k h) b.quiet h.array (may_add laws n k h)
