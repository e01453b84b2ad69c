-- ===== src/Synch/Conditions.antt =====
-- What cv_wait, up to its sleep, and cv_broadcast leave of the kernel.
use cse4300_project.Prelude.{ℕ, ◌≤◌, ◌<◌, ◌≡◌, ◌≢◌, refl, ◌∙◌, some, arith, length}
use cse4300_project.Platform.{Ptr, Platform, Laws}
use cse4300_project.Platform.Arrays.{length-reject}
use cse4300_project.Kernel.{waits, Kernel, Thread, Lock, ok, update, ◌>>=◌, ◌>>◌, splx}
use cse4300_project.Thread.Sleep.{thread_wakeup}
use cse4300_project.Thread.Switch.{thread_sleep}
use cse4300_project.Thread.Sleeping.{MaySwitch, asleep_on, thread_sleep_lem}
use cse4300_project.Synch.Lock.{lock_release, lock_do_i_hold}
use cse4300_project.Synch.Cv.{cv_wait, cv_broadcast, check_held}
use cse4300_project.Synch.Runs.{MayWake, AllWoken, wake_then_splx, lock_release-AllWoken}

module _ ⦃os : Platform⦄ (laws : Laws os) where
  open laws use {view}

  -- The current thread holds `lock`.
  pub record Holds (k : Kernel) (lock : Ptr) (l : Lock) : Type 0 where
    pub real : lock ≢ 0
    pub found : k.locks lock ≡ some l
    pub mine : l.owner ≡ k.curthread

  module _ (cv lock : Ptr) (k : Kernel) (l : Lock) (real : cv ≢ 0) (held : Holds k lock l) where
    check_held_lem : check_held cv lock k ≡ ok (tt, k)
    unfolding check_held lock_do_i_hold
    check_held_lem = ground (arith, held.real, held.found, held.mine)

    -- The level that splhigh sets.
    abbrev masked : Kernel
    masked = record k { curspl = (os.splhigh k.curspl).1 }

    broadcast-enter : cv_broadcast cv lock k ≡ (thread_wakeup cv >> splx k.curspl) masked
    unfolding cv_broadcast
    broadcast-enter = ground (arith, check_held_lem, laws.splhigh_back k.curspl)

    wait-enter :
        (k' : Kernel)
        → lock_release lock masked ≡ ok (tt, k')
        → cv_wait cv lock k ≡ (thread_sleep cv >>= λ _ k'. ok (k.curspl, k')) k'
    unfolding cv_wait
    wait-enter k' run = ground (arith, check_held_lem, run, laws.splhigh_back k.curspl)

    -- Cv_broadcast by the thread that owns the lock returns with the interrupt level it came with:
    -- everyone who sleeps on the condition variable has joined the end of the run queue, in order,
    -- the other sleepers stay, and nothing else changes. Conditions: the sleepers may be woken,
    -- and the condition variable is not NULL.
    pub cv_broadcast-AllWoken :
        (a : os.Arr) (n : ℕ)
        → MayWake laws k a n
        → (b : os.Arr) × (q : os.RunQueue) × (cv_broadcast cv lock k
            ≡ ok (tt, record k { sleepers = some b; runqueue = q }))
          × AllWoken laws cv k a n b q
    cv_broadcast-AllWoken a n m =
        let (b, q, run, rest) =
          wake_then_splx laws cv k a n masked.curspl k.curspl k.semaphores k.locks m
            (laws.splhigh_pos k.curspl) in
        (b, q, broadcast-enter ∙ run, rest)

    -- The kernel with interrupts off, the lock free, and the sleepers and the run queue replaced.
    abbrev pub freed : os.Arr → os.RunQueue → Kernel
    freed b q = record k {
      curspl = (os.splhigh k.curspl).1;
      locks = update k.locks lock (some (record l { owner = 0 }));
      sleepers = some b;
      runqueue = q;
    }

    -- Cv_wait by the thread that owns the lock, up to its sleep, is one step with interrupts off:
    -- the lock has no owner, everyone who sleeps on the lock has joined the end of the run queue,
    -- and the current thread sleeps on the condition variable, last among the sleepers; the saved
    -- interrupt level is handed on. Conditions: the sleepers may be woken, the thread may switch
    -- outside an interrupt handler, the array of sleepers is not full, and the condition variable
    -- is not NULL.
    pub cv_wait-asleep :
        (t : Thread) (a : os.Arr) (n : ℕ)
        → MayWake laws k a n
        → MaySwitch masked t
        → k.in_interrupt ≡ 0
        → length (view a) < n
        → (b : os.Arr) × (q : os.RunQueue) × (cv_wait cv lock k
            ≡ ok (k.curspl, asleep_on cv (freed b q) t b))
          × AllWoken laws lock k a n b q
    cv_wait-asleep t a n m switch quiet room =
        let (b, q, run, rest) =
          lock_release-AllWoken laws lock masked a n l
            (record {
              array = m.array;
              valid = m.valid;
              slots = m.slots;
              room = m.room;
              fits = m.fits;
            })
            held.real held.found held.mine in
        let short : length (view b) ≤ length (view a) =
          rw (rest.0) (length-reject (waits k.threads lock) (view a)) in
        let sleeps : thread_sleep cv (freed b q) ≡ ok (tt, asleep_on cv (freed b q) t b) =
          thread_sleep_lem cv (freed b q) t b
            (record {
              off = switch.off;
              running = switch.running;
              found = switch.found;
              magic = switch.magic;
            })
            quiet refl (laws.add-HasRoom b k.curthread n (rest.3) (omega (arith, short))).0 in
        (b, q, wait-enter (freed b q) run ∙ rw (sleeps, ◌>>=◌) refl, rest)
