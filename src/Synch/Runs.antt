-- ===== src/Synch/Runs.antt =====
-- What each run of a semaphore's or a lock's operation leaves of the kernel.
use cse4300_project.Prelude.{
  ℕ, ◌+◌, ◌-◌, ◌^◌, ◌≤◌, ◌<◌, ◌≡◌, ◌≢◌, refl, ◌∙◌, true, ◌++◌, Option, some, arith, length, ◌==◌,
  if◌then◌else◌,
}
use cse4300_project.Platform.{Ptr, Platform, Laws}
use cse4300_project.Platform.Arrays.{select, reject}
use cse4300_project.Kernel.{
  Kernel, Thread, Semaphore, Lock, ok, int32, is_positive, update, waits, ◌>>=◌, ◌>>◌, splx,
}
use cse4300_project.Thread.Sleep.{thread_wakeup}
use cse4300_project.Thread.Wakeup.{AreThreads, thread_wakeup-Woken}
use cse4300_project.Thread.Sleeping.{MaySwitch, asleep_on, thread_sleep_lem}
use cse4300_project.Synch.Semaphore.{asleep, returned, p_round, v_run}
use cse4300_project.Synch.Lock.{acquire_round, lock_release, lock_do_i_hold}

module _ ⦃os : Platform⦄ (laws : Laws os) where
  open laws use {view, HasRoom, HasSlots, queued}

  -- The sleepers `a` may be woken: they are threads, and the run queue has room for all.
  pub record MayWake (k : Kernel) (a : os.Arr) (n : ℕ) : Type 0 where
    pub array : k.sleepers ≡ some a
    pub valid : AreThreads k.threads (view a)
    pub slots : HasSlots k.runqueue n
    pub room : HasRoom a n
    pub fits : length (queued k.runqueue) + length (view a) ≤ n

  -- The kernel `k` with the sleepers on `addr` made runnable, in order, and the others kept.
  abbrev pub AllWoken : Ptr → Kernel → os.Arr → ℕ → os.Arr → os.RunQueue → Type 0
  AllWoken addr k a n s q =
      (view s ≡ reject (waits k.threads addr) (view a))
      × (queued q ≡ queued k.runqueue ++ select (waits k.threads addr) (view a))
      × HasSlots q n
      × HasRoom s n

  -- Interrupts are off at level `h`, and the tables of primitives are `ss` and `ls`.
  abbrev masked : Kernel → ℕ → (Ptr → Option Semaphore) → (Ptr → Option Lock) → Kernel
  masked k h ss ls = record k { curspl = h; semaphores = ss; locks = ls }

  -- thread_wakeup(addr) with interrupts off, and splx after it.
  pub wake_then_splx :
      (addr : Ptr) (k : Kernel) (a : os.Arr) (n h s : ℕ) (ss : Ptr → Option Semaphore)
      (ls : Ptr → Option Lock)
      → MayWake k a n
      → 0 < h
      → (b : os.Arr) × (q : os.RunQueue) × ((thread_wakeup addr >> splx s) (masked k h ss ls)
          ≡ ok (
            tt,
            record k { sleepers = some b; runqueue = q; curspl = s; semaphores = ss; locks = ls },
          ))
        × AllWoken addr k a n b q
  wake_then_splx addr k a n h s ss ls m off =
      let (b, q, run, kept, woken, slots, left) =
        thread_wakeup-Woken laws addr n (masked k h ss ls) a m.array off m.valid m.slots m.room
          m.fits in
      (b, q, rw (run, ◌>>◌, ◌>>=◌) (rw laws.splx_restores refl), (kept, woken, slots, left))

  -- The level to which an operation returns.
  abbrev high : Kernel → ℕ
  high k = (os.splhigh k.curspl).1

  v_run-enter :
      (sem : Ptr) (k : Kernel) (s : Semaphore)
      → sem ≢ 0
      → k.semaphores sem ≡ some s
      → is_positive (int32 (s.count + 1)) ≡ true
      → v_run sem k
        ≡ (thread_wakeup sem >> splx k.curspl) (
            masked k
              (high k)
              (update k.semaphores sem (some (record s { count = int32 (s.count + 1) })))
              k.locks)
  unfolding v_run
  v_run-enter sem k s real found pos = ground (arith, found, laws.splhigh_back k.curspl)

  -- V returns with the interrupt level it came with; the count has gone up by one, everyone who
  -- sleeps on the semaphore has joined the end of the run queue, in order, the other sleepers
  -- stay, and nothing else changes. Conditions: the sleepers may be woken, the semaphore is
  -- allocated, and the new count is a positive int.
  pub v_run-AllWoken :
      (sem : Ptr) (k : Kernel) (a : os.Arr) (n : ℕ) (s : Semaphore)
      → MayWake k a n
      → sem ≢ 0
      → k.semaphores sem ≡ some s
      → is_positive (int32 (s.count + 1)) ≡ true
      → (b : os.Arr) × (q : os.RunQueue) × (v_run sem k
          ≡ ok (
            tt,
            record k {
              semaphores =
                  update k.semaphores sem (some (record s { count = int32 (s.count + 1) }));
              sleepers = some b;
              runqueue = q;
            },
          ))
        × AllWoken sem k a n b q
  v_run-AllWoken sem k a n s m real found pos =
      let (b, q, run, rest) =
        wake_then_splx sem k a n (high k) k.curspl ss k.locks m (laws.splhigh_pos k.curspl) in
      (b, q, v_run-enter sem k s real found pos ∙ run, rest)
    where
      ss : Ptr → Option Semaphore
      ss = update k.semaphores sem (some (record s { count = int32 (s.count + 1) }))

  lock_release-enter :
      (lock : Ptr) (k : Kernel) (l : Lock)
      → lock ≢ 0
      → k.locks lock ≡ some l
      → l.owner ≡ k.curthread
      → lock_release lock k
        ≡ (thread_wakeup lock >> splx k.curspl)
            (masked k (high k) k.semaphores (update k.locks lock (some (record l { owner = 0 }))))
  unfolding lock_release lock_do_i_hold
  lock_release-enter lock k l real found mine = ground (arith, found, laws.splhigh_back k.curspl)

  -- Lock_release by the thread that owns the lock returns with the interrupt level it came with;
  -- the lock has no owner, everyone who sleeps on it has joined the end of the run queue, in
  -- order, the other sleepers stay, and nothing else changes. Conditions: the sleepers may be
  -- woken, and the lock is allocated.
  pub lock_release-AllWoken :
      (lock : Ptr) (k : Kernel) (a : os.Arr) (n : ℕ) (l : Lock)
      → MayWake k a n
      → lock ≢ 0
      → k.locks lock ≡ some l
      → l.owner ≡ k.curthread
      → (b : os.Arr) × (q : os.RunQueue) × (lock_release lock k
          ≡ ok (
            tt,
            record k {
              locks = update k.locks lock (some (record l { owner = 0 }));
              sleepers = some b;
              runqueue = q;
            },
          ))
        × AllWoken lock k a n b q
  lock_release-AllWoken lock k a n l m real found mine =
      let (b, q, run, rest) =
        wake_then_splx lock k a n (high k) k.curspl k.semaphores ls m (laws.splhigh_pos k.curspl) in
      (b, q, lock_release-enter lock k l real found mine ∙ run, rest)
    where
      ls : Ptr → Option Lock
      ls = update k.locks lock (some (record l { owner = 0 }))

  -- One has been taken from the count of `sem`.
  abbrev pub taken : Ptr → ℕ → Kernel → Semaphore → Kernel
  taken sem spl k s = record k {
    semaphores = update k.semaphores sem (some (record s { count = s.count - 1 }));
    curspl = spl;
  }

  -- The current thread owns `lock`.
  abbrev pub owned : Ptr → ℕ → Kernel → Lock → Kernel
  owned lock spl k l = record k {
    locks = update k.locks lock (some (record l { owner = k.curthread }));
    curspl = spl;
  }

  -- A round of P puts the current thread to sleep on the semaphore if the count is 0, and
  -- otherwise takes one from the count and returns with the saved interrupt level. Conditions: the
  -- current thread may switch outside an interrupt handler, the sleepers array takes one more
  -- entry, and the semaphore is allocated with a count that is no negative int.
  pub p_round_lem :
      (sem : Ptr) (spl : ℕ) (k : Kernel) (t : Thread) (a : os.Arr) (s : Semaphore)
      → MaySwitch k t
      → k.in_interrupt ≡ 0
      → k.sleepers ≡ some a
      → (os.array_add a k.curthread).code ≡ 0
      → k.semaphores sem ≡ some s
      → s.count < 2 ^ 31
      → p_round sem spl k ≡ (
          if s.count == 0
          then ok (asleep, asleep_on sem k t a)
          else ok (returned, taken sem spl k s))
  unfolding p_round
  p_round_lem sem spl k t a s m quiet e room found fits =
      ground
        (arith, found, thread_sleep_lem sem k t a m quiet e room, laws.splx_restores k.curspl spl)

  -- A round of lock_acquire puts the current thread to sleep on the lock if it has an owner, and
  -- otherwise makes the current thread the owner and returns with the saved interrupt level.
  -- Conditions: the current thread may switch outside an interrupt handler, the sleepers array
  -- takes one more entry, and the lock is allocated.
  pub acquire_round_lem :
      (lock : Ptr) (spl : ℕ) (k : Kernel) (t : Thread) (a : os.Arr) (l : Lock)
      → MaySwitch k t
      → k.in_interrupt ≡ 0
      → k.sleepers ≡ some a
      → (os.array_add a k.curthread).code ≡ 0
      → k.locks lock ≡ some l
      → acquire_round lock spl k ≡ (
          if l.owner == 0
          then ok (returned, owned lock spl k l)
          else ok (asleep, asleep_on lock k t a))
  unfolding acquire_round
  acquire_round_lem lock spl k t a l m quiet e room found =
      ground
        (arith, found, thread_sleep_lem lock k t a m quiet e room, laws.splx_restores k.curspl spl)
