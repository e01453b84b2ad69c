-- ===== src/Synch/Acquire.antt =====
-- What whole calls of lock_acquire and P do up to a sleep or the return, and the calls that fail.
use cse4300_project.Prelude.{
  ◌^◌, ◌<◌, ◌≡◌, ◌≢◌, refl, ◌∙◌, true, false, some, arith, ◌==◌, if◌then◌else◌, inl, inr,
  Bool-cases,
}
use cse4300_project.Platform.{Ptr, Platform, Laws}
use cse4300_project.Kernel.{Kernel, Thread, Semaphore, Lock, ok, fault, assertion}
use cse4300_project.Thread.Sleeping.{MaySwitch, asleep_on}
use cse4300_project.Synch.Semaphore.{Outcome, asleep, returned, p_round, p_start}
use cse4300_project.Synch.Lock.{acquire_round, lock_acquire, lock_release, lock_do_i_hold}
use cse4300_project.Synch.Runs.{p_round_lem, acquire_round_lem, taken, owned}

module _ ⦃os : Platform⦄ (laws : Laws os) where
  -- The level that splhigh sets.
  abbrev pub masked : Kernel → Kernel
  masked k = record k { curspl = (os.splhigh k.curspl).1 }

  module _ (lock : Ptr) (k : Kernel) (l : Lock) (real : lock ≢ 0)
      (found : k.locks lock ≡ some l) where
    lock_acquire-holder : l.owner ≡ k.curthread → lock_acquire lock k ≡ fault assertion
    unfolding lock_acquire lock_do_i_hold
    lock_acquire-holder mine = ground (arith, found)

    pub lock_acquire-enter :
        (r : Outcome) (k' : Kernel)
        → (l.owner == k.curthread) ≡ false
        → acquire_round lock k.curspl (masked k) ≡ ok (r, k')
        → lock_acquire lock k ≡ ok ((k.curspl, r), k')
    unfolding lock_acquire lock_do_i_hold
    lock_acquire-enter r k' other run = ground (arith, found, run, laws.splhigh_back k.curspl)

    -- Lock_acquire, up to its return or first sleep, fails an assertion if the current thread owns
    -- the lock; otherwise it makes the current thread the owner and returns with the old interrupt
    -- level if the lock has no owner, and sleeps on the lock with interrupts off if it has.
    -- Conditions: the lock is allocated, the thread may switch outside an interrupt handler, and
    -- the sleepers array takes one more entry.
    pub lock_acquire_lem :
        (t : Thread) (a : os.Arr)
        → MaySwitch (masked k) t
        → k.in_interrupt ≡ 0
        → k.sleepers ≡ some a
        → (os.array_add a k.curthread).code ≡ 0
        → lock_acquire lock k ≡ (
            if l.owner == k.curthread
            then fault assertion
            else if l.owner == 0
            then ok ((k.curspl, returned), owned laws lock k.curspl k l)
            else ok ((k.curspl, asleep), asleep_on lock (masked k) t a))
    lock_acquire_lem t a m quiet e room = elim (Bool-cases (l.owner == k.curthread)) [
      | inl mine ↦ rw mine (lock_acquire-holder (ground arith))
      | inr other ↦ rw other (elim (Bool-cases (l.owner == 0)) [
        | inl free ↦ rw free (lock_acquire-enter _ _ other (round ∙ rw free refl))
        | inr held ↦ rw held (lock_acquire-enter _ _ other (round ∙ rw held refl))
      ])
    ]
      where
        round : acquire_round lock k.curspl (masked k) ≡ (
            if l.owner == 0
            then ok (returned, owned laws lock k.curspl (masked k) l)
            else ok (asleep, asleep_on lock (masked k) t a))
        round = acquire_round_lem laws lock k.curspl (masked k) t a l m quiet e room found

    -- lock_release by a stranger
    pub lock_release-stranger : l.owner ≢ k.curthread → lock_release lock k ≡ fault assertion
    unfolding lock_release lock_do_i_hold
    lock_release-stranger other = ground (arith, found)

  module _ (sem : Ptr) (k : Kernel) (s : Semaphore) (real : sem ≢ 0)
      (found : k.semaphores sem ≡ some s) where
    p_start-interrupt : (k.in_interrupt == 0) ≡ false → p_start sem k ≡ fault assertion
    unfolding p_start
    p_start-interrupt busy = ground (arith, found)

    pub p_start-enter :
        (r : Outcome) (k' : Kernel)
        → (k.in_interrupt == 0) ≡ true
        → p_round sem k.curspl (masked k) ≡ ok (r, k')
        → p_start sem k ≡ ok ((k.curspl, r), k')
    unfolding p_start
    p_start-enter r k' quiet run = ground (arith, found, run, laws.splhigh_back k.curspl)

    -- P, up to its return or first sleep, fails an assertion in an interrupt handler; otherwise it
    -- sleeps on the semaphore with interrupts off if the count is 0, and takes one from the count
    -- and returns with the old interrupt level if not. Conditions: the semaphore is allocated with
    -- a count that is no negative int, the thread may switch, and the sleepers array takes one
    -- more entry.
    pub p_start_lem :
        (t : Thread) (a : os.Arr)
        → MaySwitch (masked k) t
        → k.sleepers ≡ some a
        → (os.array_add a k.curthread).code ≡ 0
        → s.count < 2 ^ 31
        → p_start sem k ≡ (
            if k.in_interrupt == 0
            then if s.count == 0
              then ok ((k.curspl, asleep), asleep_on sem (masked k) t a)
              else ok ((k.curspl, returned), taken laws sem k.curspl k s)
            else fault assertion)
    p_start_lem t a m e room fits = elim (Bool-cases (k.in_interrupt == 0)) [
      | inr busy ↦ rw busy (p_start-interrupt busy)
      | inl quiet ↦ rw quiet (elim (Bool-cases (s.count == 0)) [
        | inl empty ↦ rw empty (p_start-enter _ _ quiet (round (ground arith) ∙ rw empty refl))
        | inr left ↦ rw left (p_start-enter _ _ quiet (round (ground arith) ∙ rw left refl))
      ])
    ]
      where
        round :
            k.in_interrupt ≡ 0
            → p_round sem k.curspl (masked k) ≡ (
                if s.count == 0
                then ok (asleep, asleep_on sem (masked k) t a)
                else ok (returned, taken laws sem k.curspl (masked k) s))
        round quiet = p_round_lem laws sem k.curspl (masked k) t a s m quiet e room found fits
