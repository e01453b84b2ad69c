-- ===== src/Synch/Waiting/Rounds.antt =====
-- Going to sleep loses no wakeup: the rounds of P and lock_acquire.
use cse4300_project.Prelude.{
  ℕ, ◌-◌, ◌^◌, ◌<◌, ◌≡◌, ◌≢◌, refl, ◌∙◌, none, some, arith, ◌==◌, inl, inr, Bool-cases,
}
use cse4300_project.Platform.{Ptr, Platform, Laws}
use cse4300_project.Kernel.{Kernel, Thread, Semaphore, Lock, ok}
use cse4300_project.Thread.Sleeping.{MaySwitch, asleep_on}
use cse4300_project.Synch.Semaphore.{Outcome, asleep, returned, p_round}
use cse4300_project.Synch.Lock.{acquire_round}
use cse4300_project.Synch.Runs.{p_round_lem, acquire_round_lem, taken, owned}
use cse4300_project.Synch.Sleepers.{select-asleep_at}
use cse4300_project.Synch.Waiting.{Quiet, NoLostWakeup, update_cases}

module _ ⦃os : Platform⦄ (laws : Laws os) where
  open laws use {view}

  -- Going to sleep on `addr` keeps everybody else quiet.
  Quiet-asleep :
      (addr p : Ptr) (k : Kernel) (t : Thread) (a : os.Arr)
      → k.sleepers ≡ some a
      → (os.array_add a k.curthread).code ≡ 0
      → addr ≢ p
      → Quiet laws k p
      → Quiet laws (asleep_on addr k t a) p
  Quiet-asleep addr p k t a e room ne quiet b eb =
      let same : (os.array_add a k.curthread).value ≡ b = cc in
      rw (← same, laws.add-view a k.curthread room)
        (select-asleep_at k.threads k.curthread addr p t (view a) ne (quiet a e))

  -- The current thread goes to sleep where there is no semaphore and no lock.
  pub asleep_on-NoLostWakeup :
      (addr : Ptr) (k : Kernel) (t : Thread) (a : os.Arr)
      → NoLostWakeup laws k
      → k.sleepers ≡ some a
      → (os.array_add a k.curthread).code ≡ 0
      → k.semaphores addr ≡ none
      → k.locks addr ≡ none
      → NoLostWakeup laws (asleep_on addr k t a)
  asleep_on-NoLostWakeup addr k t a inv e room no_semaphore no_lock = record {
    semaphores =
        λ p s ep c. Quiet-asleep addr p k t a e room (ground arith) (inv.semaphores p s ep c);
    locks = λ p l ep o. Quiet-asleep addr p k t a e room (ground arith) (inv.locks p l ep o);
  }

  -- A round of P (the loop test and what follows it up to thread_sleep or splx) gives an outcome
  -- and keeps the invariant that nobody sleeps on a semaphore with a positive count or on a lock
  -- without owner. Conditions: the current thread may switch outside an interrupt handler, the
  -- sleepers array takes one more entry, the semaphore is allocated with a count that is no
  -- negative int, and no lock has its address.
  pub p_round-NoLostWakeup :
      (sem : Ptr) (spl : ℕ) (k : Kernel) (t : Thread) (a : os.Arr) (s : Semaphore)
      → NoLostWakeup laws k
      → MaySwitch k t
      → k.in_interrupt ≡ 0
      → k.sleepers ≡ some a
      → (os.array_add a k.curthread).code ≡ 0
      → k.semaphores sem ≡ some s
      → s.count < 2 ^ 31
      → k.locks sem ≡ none
      → (r : Outcome) × (k' : Kernel) × (p_round sem spl k ≡ ok (r, k')) × NoLostWakeup laws k'
  p_round-NoLostWakeup sem spl k t a s inv m quiet e room found fits no_lock =
      elim (Bool-cases (s.count == 0)) [
        | inl zero_left ↦ (
          asleep,
          asleep_on sem k t a,
          p_round_lem laws sem spl k t a s m quiet e room found fits ∙ rw zero_left refl,
          record {
            semaphores = λ p s' ep c.
                Quiet-asleep sem p k t a e room (ground arith) (inv.semaphores p s' ep c);
            locks = λ p l ep o. Quiet-asleep sem p k t a e room (ground arith) (inv.locks p l ep o);
          },
        )
        | inr some_left ↦ (
          returned,
          taken laws sem spl k s,
          p_round_lem laws sem spl k t a s m quiet e room found fits ∙ rw some_left refl,
          record {
            semaphores = λ p s' ep c.
                elim (update_cases laws k.semaphores sem p (record s { count = s.count - 1 }) s'
                  ep) [
                    | inl (here, _) ↦ inv.semaphores p s (rw (← here) found) (ground arith)
                    | inr old ↦ inv.semaphores p s' old c
                  ];
            locks = inv.locks;
          },
        )
      ]

  -- A round of lock_acquire gives an outcome and keeps the invariant that nobody sleeps on a
  -- semaphore with a positive count or on a lock without owner. Conditions: the current thread may
  -- switch outside an interrupt handler, the sleepers array takes one more entry, the lock is
  -- allocated, and no semaphore has its address.
  pub acquire_round-NoLostWakeup :
      (lock : Ptr) (spl : ℕ) (k : Kernel) (t : Thread) (a : os.Arr) (l : Lock)
      → NoLostWakeup laws k
      → MaySwitch k t
      → k.in_interrupt ≡ 0
      → k.sleepers ≡ some a
      → (os.array_add a k.curthread).code ≡ 0
      → k.locks lock ≡ some l
      → k.semaphores lock ≡ none
      → (r : Outcome) × (k' : Kernel) × (acquire_round lock spl k ≡ ok (r, k'))
        × NoLostWakeup laws k'
  acquire_round-NoLostWakeup lock spl k t a l inv m quiet e room found no_semaphore =
      elim (Bool-cases (l.owner == 0)) [
        | inl free ↦ (
          returned,
          owned laws lock spl k l,
          acquire_round_lem laws lock spl k t a l m quiet e room found ∙ rw free refl,
          record {
            semaphores = inv.semaphores;
            locks = λ p l' ep o.
                elim (update_cases laws k.locks lock p (record l { owner = k.curthread }) l' ep) [
                  | inl (here, _) ↦ inv.locks p l (rw (← here) found) (ground arith)
                  | inr old ↦ inv.locks p l' old o
                ];
          },
        )
        | inr held ↦ (
          asleep,
          asleep_on lock k t a,
          acquire_round_lem laws lock spl k t a l m quiet e room found ∙ rw held refl,
          record {
            semaphores = λ p s ep c.
                Quiet-asleep lock p k t a e room (ground arith) (inv.semaphores p s ep c);
            locks =
                λ p l' ep o. Quiet-asleep lock p k t a e room (ground arith) (inv.locks p l' ep o);
          },
        )
      ]
