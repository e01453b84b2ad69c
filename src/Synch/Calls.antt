-- ===== src/Synch/Calls.antt =====
-- The calls of thread.c and synch.c that a thread can make, each up to its return or first sleep.
use cse4300_project.Prelude.{ℕ, ◌+◌, ◌^◌, ◌<◌, ◌≡◌, ◌≢◌, refl, List, ◌∷◌, some, arith}
use cse4300_project.Platform.{Ptr, Platform, Laws}
use cse4300_project.Kernel.{Kernel, Semaphore, Lock, K, ok, pure, ◌>>=◌}
use cse4300_project.Thread.Switch.{thread_yield}
use cse4300_project.Thread.Sleeping.{MaySwitch}
use cse4300_project.Thread.Population.{AreAlive-AreThreads}
use cse4300_project.Thread.Conservation.{Healthy}
use cse4300_project.Synch.Semaphore.{p_start, v_run}
use cse4300_project.Synch.Lock.{lock_acquire, lock_release}
use cse4300_project.Synch.Cv.{cv_wait, cv_broadcast}
use cse4300_project.Synch.Runs.{MayWake}
use cse4300_project.Synch.Acquire.{masked}
use cse4300_project.Synch.Conditions.{Holds}

pub data Call : Type 0 where
  p v acquire release : Ptr → Call
  wait broadcast : Ptr → Ptr → Call
  yield : Call

module _ ⦃os : Platform⦄ where
  -- `m` with its result dropped
  abbrev pub drop : {A : Type 0} → K A → K (Unit {0})
  drop m = do _ ← m; pure tt

  -- A run whose result is dropped.
  pub dropped :
      {A : Type 0} (m : K A) (k k' : Kernel) (a : A) → m k ≡ ok (a, k') → drop m k ≡ ok (tt, k')
  dropped m k k' a run = rw (run, drop, ◌>>=◌) refl

  unfoldable pub perform : Call → K (Unit {0})
  perform (p sem) = drop (p_start sem)
  perform (v sem) = v_run sem
  perform (acquire lock) = drop (lock_acquire lock)
  perform (release lock) = lock_release lock
  perform (wait cv lock) = drop (cv_wait cv lock)
  perform (broadcast cv lock) = cv_broadcast cv lock
  perform yield = drop thread_yield

module _ ⦃os : Platform⦄ (laws : Laws os) (n : ℕ) where
  open laws use {view, queued}

  -- Somebody else is ready to run, and no interrupt is being handled.
  pub record MayBlock (k : Kernel) : Type 0 where
    pub quiet : k.in_interrupt ≡ 0
    pub first : Ptr
    pub others : List Ptr
    pub ready : queued k.runqueue ≡ first ∷ others

  -- A semaphore that V may raise and P may lower.
  pub record Counts (k : Kernel) (sem : Ptr) : Type 0 where
    pub real : sem ≢ 0
    pub semaphore : Semaphore
    pub found : k.semaphores sem ≡ some semaphore
    pub fits : semaphore.count + 1 < 2 ^ 31

  -- The lock is allocated, and the current thread does not own it.
  pub record MayAcquire (k : Kernel) (lock : Ptr) : Type 0 where
    pub real : lock ≢ 0
    pub state : Lock
    pub found : k.locks lock ≡ some state
    pub other : state.owner ≢ k.curthread

  -- What a caller of the operation owes to it.
  abbrev pub CanCall : Kernel → Call → Type 0
  CanCall k (p sem) = Counts k sem × MayBlock k
  CanCall k (v sem) = Counts k sem
  CanCall k (acquire lock) = MayAcquire k lock × MayBlock k
  CanCall k (release lock) = (l : Lock) × Holds laws k lock l
  CanCall k (wait cv lock) = (l : Lock) × (cv ≢ 0) × Holds laws k lock l × MayBlock k
  CanCall k (broadcast cv lock) = (l : Lock) × (cv ≢ 0) × Holds laws k lock l
  CanCall k yield = Unit

  pub may_wake : (k : Kernel) (h : Healthy laws n k) → MayWake laws k h.sleepers n
  may_wake k h = record {
    array = h.array;
    valid = AreAlive-AreThreads k.threads (view h.sleepers) h.asleep;
    slots = h.slots;
    room = h.room;
    fits = omega (arith, h.fits);
  }

  pub may_add : (k : Kernel) (h : Healthy laws n k) → (os.array_add h.sleepers k.curthread).code ≡ 0
  may_add k h = (laws.add-HasRoom h.sleepers k.curthread n h.room (omega (arith, h.fits))).0

  pub may_switch : (k : Kernel) (h : Healthy laws n k) → MaySwitch (masked laws k) h.current.thread
  may_switch k h = record {
    off = laws.splhigh_pos k.curspl;
    running = h.current.real;
    found = h.current.found;
    magic = h.current.magic;
  }
