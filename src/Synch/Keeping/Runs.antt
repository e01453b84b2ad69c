-- ===== src/Synch/Keeping/Runs.antt =====
-- What P, lock_acquire, cv_wait and thread_yield do to the threads of a healthy kernel.
use cse4300_project.Prelude.{
  ℕ, ◌≡◌, ◌≢◌, refl, ap, ◌∙◌, false, List, [], ◌∷◌, ◌++◌, Option, some, arith, ◌==◌, if◌then◌else◌,
  inl, inr, Bool-cases,
}
use cse4300_project.Platform.{Ptr, Platform, Laws}
use cse4300_project.Platform.Arrays.{select}
use cse4300_project.Kernel.{Kernel, Semaphore, Lock, ok, fault, assertion, waits}
use cse4300_project.Thread.Switch.{thread_yield}
use cse4300_project.Thread.Sleeping.{asleep_on}
use cse4300_project.Thread.Population.{Keeps}
use cse4300_project.Thread.Conservation.{Healthy, asleep_on-Keeps, moved-Keeps}
use cse4300_project.Thread.Yielding.{thread_yield-Keeps}
use cse4300_project.Synch.Semaphore.{asleep, returned, p_start}
use cse4300_project.Synch.Lock.{lock_acquire}
use cse4300_project.Synch.Cv.{cv_wait}
use cse4300_project.Synch.Runs.{taken, owned}
use cse4300_project.Synch.Acquire.{masked, lock_acquire_lem, p_start_lem}
use cse4300_project.Synch.Conditions.{Holds, freed, cv_wait-asleep}
use cse4300_project.Synch.Calls.{
  Call, p, acquire, wait, yield, dropped, perform, MayBlock, Counts, MayAcquire, may_wake, may_add,
  may_switch,
}

snoc-cons : (xs : List Ptr) (y : Ptr) → (x : Ptr) × (zs : List Ptr) × (xs ++ y ∷ [] ≡ x ∷ zs)
snoc-cons [] y = (y, [], refl)
snoc-cons (x ∷ xs) y = (x, xs ++ y ∷ [], refl)

module _ ⦃os : Platform⦄ (laws : Laws os) (n : ℕ) where
  open laws use {view, queued}

  -- The tables of semaphores and locks and the interrupt level do not count.
  abbrev pub retabled :
      (k : Kernel) (level : ℕ) (ss : Ptr → Option Semaphore) (ls : Ptr → Option Lock)
      → Healthy laws n k
      → Healthy laws n (record k { curspl = level; semaphores = ss; locks = ls })
  retabled k level ss ls h = record {
    sleepers = h.sleepers;
    array = h.array;
    current = h.current;
    ready = h.ready;
    asleep = h.asleep;
    room = h.room;
    slots = h.slots;
    fits = h.fits;
  }

  abbrev pub retabled-Keeps :
      (k k' : Kernel) (level : ℕ) (ss : Ptr → Option Semaphore) (ls : Ptr → Option Lock)
      → Keeps laws n k k'
      → Keeps laws n k (record k' { curspl = level; semaphores = ss; locks = ls })
  retabled-Keeps k k' level ss ls r = record {
    healthy = retabled k' level ss ls r.healthy;
    same = r.same;
  }

  stays : (k : Kernel) → Healthy laws n k → Keeps laws n k k
  stays k h = record { healthy = h; same = λ p. refl }

  abbrev pub Performs : Call → Kernel → Type 0
  Performs c k = (k' : Kernel) × (perform c k ≡ ok (tt, k')) × Keeps laws n k k'

  -- The current thread goes to sleep with interrupts off.
  sleeps-Keeps :
      (addr : Ptr) (k : Kernel) (h : Healthy laws n k)
      → MayBlock laws n k
      → Keeps laws n k (asleep_on addr (masked laws k) h.current.thread h.sleepers)
  sleeps-Keeps addr k h b =
      let r =
        asleep_on-Keeps laws n (masked laws k) (retabled k _ k.semaphores k.locks h) b.first
          b.others b.ready addr in
      record { healthy = r.healthy; same = r.same }

  pub p_perform :
      (sem : Ptr) (k : Kernel)
      → Healthy laws n k
      → Counts laws n k sem
      → MayBlock laws n k
      → Performs (p sem) k
  unfolding perform
  p_perform sem k h c b = elim (Bool-cases (c.semaphore.count == 0)) [
    | inl empty ↦ (
      _,
      dropped (p_start sem) k (asleep_on sem (masked laws k) h.current.thread h.sleepers)
          (k.curspl, asleep) (run ∙ rw (b.quiet, empty) refl),
      sleeps-Keeps sem k h b,
    )
    | inr left ↦ (
      _,
      dropped (p_start sem) k (taken laws sem k.curspl k c.semaphore) (k.curspl, returned)
          (run ∙ rw (b.quiet, left) refl),
      retabled-Keeps k k k.curspl _ k.locks (stays k h),
    )
  ]
    where
      run : p_start sem k ≡ (
          if k.in_interrupt == 0
          then if c.semaphore.count == 0
            then ok ((k.curspl, asleep), asleep_on sem (masked laws k) h.current.thread h.sleepers)
            else ok ((k.curspl, returned), taken laws sem k.curspl k c.semaphore)
          else fault assertion)
      run =
          p_start_lem laws sem k c.semaphore c.real c.found h.current.thread h.sleepers
            (may_switch laws n k h) h.array (may_add laws n k h) (omega (arith, c.fits))

  pub acquire_perform :
      (lock : Ptr) (k : Kernel)
      → Healthy laws n k
      → MayAcquire laws n k lock
      → MayBlock laws n k
      → Performs (acquire lock) k
  unfolding perform
  acquire_perform lock k h c b = elim (Bool-cases (c.state.owner == 0)) [
    | inl free ↦ (
      _,
      dropped (lock_acquire lock) k (owned laws lock k.curspl k c.state) (k.curspl, returned)
          (run ∙ rw (other, free) refl),
      retabled-Keeps k k k.curspl k.semaphores _ (stays k h),
    )
    | inr held ↦ (
      _,
      dropped (lock_acquire lock) k (asleep_on lock (masked laws k) h.current.thread h.sleepers)
          (k.curspl, asleep) (run ∙ rw (other, held) refl),
      sleeps-Keeps lock k h b,
    )
  ]
    where
      other : (c.state.owner == k.curthread) ≡ false
      other = ground (arith, c.other)

      run : lock_acquire lock k ≡ (
          if c.state.owner == k.curthread
          then fault assertion
          else if c.state.owner == 0
          then ok ((k.curspl, returned), owned laws lock k.curspl k c.state)
          else ok ((k.curspl, asleep), asleep_on lock (masked laws k) h.current.thread h.sleepers))
      run =
          lock_acquire_lem laws lock k c.state c.real c.found h.current.thread h.sleepers
            (may_switch laws n k h) b.quiet h.array (may_add laws n k h)

  pub wait_perform :
      (cv lock : Ptr) (k : Kernel) (l : Lock)
      → Healthy laws n k
      → cv ≢ 0
      → Holds laws k lock l
      → MayBlock laws n k
      → Performs (wait cv lock) k
  unfolding perform
  wait_perform cv lock k l h real held b =
      let (s, q, run, w) =
        cv_wait-asleep laws cv lock k l real held h.current.thread h.sleepers n
          (may_wake laws n k h) (may_switch laws n k h) b.quiet (omega (arith, h.fits)) in
      let r = moved-Keeps laws n k h lock s q w in
      let f = freed laws cv lock k l real held s q in
      let h' : Healthy laws n f =
        retabled (record k { sleepers = some s; runqueue = q }) f.curspl k.semaphores f.locks
          r.healthy in
      let r' =
        asleep_on-Keeps laws n f h' b.first
          (b.others ++ select (waits k.threads lock) (view h.sleepers))
          (w.1 ∙ ap (λ l. l ++ select (waits k.threads lock) (view h.sleepers)) b.ready) cv in
      (
        _,
        dropped (cv_wait cv lock) k _ _ run,
        record { healthy = r'.healthy; same = λ x. r'.same x ∙ r.same x },
      )

  pub yield_perform : (k : Kernel) → Healthy laws n k → Performs yield k
  unfolding perform
  yield_perform k h =
      let (x, xs, e) = snoc-cons (queued k.runqueue) k.curthread in
      let (k', run, r, _, _) = thread_yield-Keeps laws n k h x xs e in
      (k', dropped thread_yield k k' k.curspl run, r)
