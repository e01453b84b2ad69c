-- ===== src/Synch/Exclusion.antt =====
-- Mutual exclusion: what a sequence of steps of several threads does to one lock of synch.c.
use cse4300_project.Prelude.{
  ℕ, ◌≡◌, ◌≢◌, refl, sym, ap, ◌∙◌, false, some, arith, ◌==◌, if◌then◌else◌, inl, inr, Bool-cases,
}
use cse4300_project.Platform.{Ptr, Platform, Laws}
use cse4300_project.Kernel.{Kernel, Thread, Lock, Result, ok, fault, assertion}
use cse4300_project.Thread.Sleeping.{MaySwitch, asleep_on}
use cse4300_project.Synch.Semaphore.{Outcome, asleep, returned}
use cse4300_project.Synch.Lock.{acquire_round, lock_release}
use cse4300_project.Synch.Runs.{acquire_round_lem, owned}
use cse4300_project.Synch.Acquire.{lock_release-stranger}

module _ ⦃os : Platform⦄ where
  -- The current thread may sleep, in the array `a` of sleepers.
  pub record MaySleep (k : Kernel) (t : Thread) (a : os.Arr) : Type 0 where
    pub switch : MaySwitch k t
    pub quiet : k.in_interrupt ≡ 0
    pub array : k.sleepers ≡ some a
    pub room : (os.array_add a k.curthread).code ≡ 0

  -- A step of any thread but `holder`: a round of lock_acquire, a lock_release, or work that leaves
  -- the locks alone, such as a switch to any thread.
  pub data OtherStep (lock holder : Ptr) : Kernel → Kernel → Type 0 where
    acquires :
        {k k' : Kernel} (spl : ℕ) (t : Thread) (a : os.Arr) (r : Outcome)
        → k.curthread ≢ holder
        → MaySleep k t a
        → acquire_round lock spl k ≡ ok (r, k')
        → OtherStep lock holder k k'
    releases :
        {k k' : Kernel}
        → k.curthread ≢ holder
        → lock_release lock k ≡ ok (tt, k')
        → OtherStep lock holder k k'
    elsewhere : {k k' : Kernel} → k'.locks ≡ k.locks → OtherStep lock holder k k'

  pub data OtherSteps (lock holder : Ptr) : Kernel → Kernel → Type 0 where
    stop : {k : Kernel} → OtherSteps lock holder k k
    next :
        {k k' k'' : Kernel}
        → OtherStep lock holder k k'
        → OtherSteps lock holder k' k''
        → OtherSteps lock holder k k''

  -- Two ways in which one run ends are the same.
  pub same_end :
      {A : Type 0} {a b : A} {k k' : Kernel}
      → ◌≡◌ {A = Result (A × Kernel)} (ok (a, k)) (ok (b, k'))
      → (a ≡ b) × (k ≡ k')
  same_end e = (cc, cc)

module _ ⦃os : Platform⦄ (laws : Laws os) where
  -- A round of lock_acquire that returns, by a thread that may sleep and on an allocated lock, has
  -- found the lock without owner, and leaves the current thread as its owner.
  pub acquire_round-returned :
      (lock : Ptr) (spl : ℕ) (k k' : Kernel) (t : Thread) (a : os.Arr) (l : Lock)
      → MaySleep k t a
      → k.locks lock ≡ some l
      → acquire_round lock spl k ≡ ok (returned, k')
      → (l.owner ≡ 0) × (k'.locks lock ≡ some (record l { owner = k.curthread }))
  acquire_round-returned lock spl k k' t a l m found run = elim (Bool-cases (l.owner == 0)) [
    | inl free ↦
        let e : ◌≡◌ {A = Result (Outcome × Kernel)} (ok (returned, owned laws lock spl k l))
            (ok (returned, k')) =
          sym (round ∙ rw free refl) ∙ run in
        (ground arith, sym (ap (λ (x : Kernel). x.locks lock) (same_end e).1) ∙ ground arith)
    | inr held ↦
        let e : ◌≡◌ {A = Result (Outcome × Kernel)} (ok (asleep, asleep_on lock k t a))
            (ok (returned, k')) =
          sym (round ∙ rw held refl) ∙ run in
        let e' : asleep ≡ returned = (same_end e).0 in absurd cc
  ]
    where
      round : acquire_round lock spl k ≡ (
          if l.owner == 0
          then ok (returned, owned laws lock spl k l)
          else ok (asleep, asleep_on lock k t a))
      round = acquire_round_lem laws lock spl k t a l m.switch m.quiet m.array m.room found

  OtherStep-owner :
      (lock holder : Ptr) (l : Lock) {k k' : Kernel}
      → lock ≢ 0
      → holder ≢ 0
      → l.owner ≡ holder
      → k.locks lock ≡ some l
      → OtherStep lock holder k k'
      → k'.locks lock ≡ some l
  OtherStep-owner lock holder l {k} {k'} real some_holder mine found (elsewhere e) =
      ap (λ f. f lock) e ∙ found
  OtherStep-owner lock holder l {k} {k'} real some_holder mine found (releases other run) =
      let refused : lock_release lock k ≡ fault assertion =
        lock_release-stranger laws lock k l real found (ground arith) in
      absurd cc
  OtherStep-owner lock holder l {k} {k'} real some_holder mine found
        (acquires spl t a r other m run) =
      let held : (l.owner == 0) ≡ false = ground arith in
      let e : ◌≡◌ {A = Result (Outcome × Kernel)} (ok (asleep, asleep_on lock k t a)) (ok (r, k')) =
        sym (
          acquire_round_lem laws lock spl k t a l m.switch m.quiet m.array m.room found
          ∙ rw held refl)
        ∙ run in
      sym (ap (λ (x : Kernel). x.locks lock) (same_end e).1) ∙ found

  -- Mutual exclusion: while a thread owns a lock, any sequence of steps of other threads leaves
  -- the lock with that owner. A step is a round of lock_acquire on the lock by a thread that may
  -- sleep, a lock_release of it that returns, or work that leaves the table of locks alone.
  -- Conditions: neither the lock nor the owner is NULL.
  pub OtherSteps-owner :
      (lock holder : Ptr) (l : Lock) {k k' : Kernel}
      → lock ≢ 0
      → holder ≢ 0
      → l.owner ≡ holder
      → k.locks lock ≡ some l
      → OtherSteps lock holder k k'
      → k'.locks lock ≡ some l
  OtherSteps-owner lock holder l real some_holder mine found stop = found
  OtherSteps-owner lock holder l real some_holder mine found (next s ss) =
      OtherSteps-owner lock holder l real some_holder mine
        (OtherStep-owner lock holder l real some_holder mine found s) ss
