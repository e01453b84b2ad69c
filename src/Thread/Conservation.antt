-- ===== src/Thread/Conservation.antt =====
-- thread_sleep, thread_yield and thread_wakeup of thread.c lose no thread and run none twice.
use cse4300_project.Prelude.{
  ℕ, ◌<◌, ◌≡◌, refl, ap, Bool, List, [], ◌∷◌, ◌++◌, Option, some, arith, length, length-append,
}
use cse4300_project.Platform.{Ptr, Platform, Laws}
use cse4300_project.Platform.Arrays.{select, reject}
use cse4300_project.Kernel.{Kernel, Thread, ok, update, waits}
use cse4300_project.Thread.Switch.{thread_sleep}
use cse4300_project.Thread.Sleep.{thread_wakeup}
use cse4300_project.Thread.Wakeup.{thread_wakeup-Woken}
use cse4300_project.Thread.Sleeping.{asleep_on, thread_sleep_lem}
use cse4300_project.Thread.Population.{
  occurrences, occurrences-append, occurrences-select, length-select, AreAlive, AreAlive-append,
  AreAlive-select, AreAlive-AreThreads, AreAlive-update, IsHealthy, Keeps,
}

module _ ⦃os : Platform⦄ (laws : Laws os) (n : ℕ) where
  open laws use {view, queued, HasRoom, HasSlots}

  abbrev pub Healthy : Kernel → Type 0
  Healthy = IsHealthy laws n

  module _ (k : Kernel) (h : Healthy k) where
    may_add :
        ((os.array_add h.sleepers k.curthread).code ≡ 0)
        × HasRoom (os.array_add h.sleepers k.curthread).value n
    may_add = laws.add-HasRoom h.sleepers k.curthread n h.room (omega (arith, h.fits))

    module _ (x : Ptr) (xs : List Ptr) (e : queued k.runqueue ≡ x ∷ xs) where
      -- The thread at the head of the run queue runs next.
      pub asleep_on-Keeps :
          (addr : Ptr) → Keeps laws n k (asleep_on addr k h.current.thread h.sleepers)
      asleep_on-Keeps addr = record {
        healthy = record {
          sleepers = (os.array_add h.sleepers k.curthread).value;
          array = refl;
          current = rw (next.0) line.0;
          ready = rw (next.1) line.1;
          asleep = rw grown (
              still (view h.sleepers ++ k.curthread ∷ []) (
                AreAlive-append k.threads (view h.sleepers) (k.curthread ∷ []) h.asleep
                  (h.current, tt)));
          room = may_add.1;
          slots = laws.scheduler-HasSlots k.runqueue n h.slots;
          fits = omega (
            arith,
            h.fits,
            ap length e,
            ap length next.1,
            ap length grown,
            length-append (view h.sleepers) (k.curthread ∷ []),
          );
        };
        same = λ p.
            rw (next.0, h.array)
              (omega (
                arith,
                ap (occurrences p) e,
                ap (occurrences p) next.1,
                ap (occurrences p) grown,
                occurrences-append p (view h.sleepers) (k.curthread ∷ []),
              ));
      }
        where
          threads : Ptr → Option Thread
          threads =
              update k.threads k.curthread (some (record h.current.thread { t_sleepaddr = addr }))

          still : (ps : List Ptr) → AreAlive k.threads ps → AreAlive threads ps
          still ps v =
              AreAlive-update k.threads k.curthread addr h.current.thread ps h.current.magic v

          line : AreAlive threads (x ∷ xs)
          line = still (x ∷ xs) (rw e at h.ready)

          next : ((os.scheduler k.runqueue).0 ≡ x) × (queued (os.scheduler k.runqueue).1 ≡ xs)
          next = laws.scheduler-queued k.runqueue x xs e

          grown :
              view (os.array_add h.sleepers k.curthread).value ≡ view h.sleepers ++ k.curthread ∷ []
          grown = laws.add-view h.sleepers k.curthread may_add.0

      pub thread_sleep-Keeps :
          (addr : Ptr)
          → 0 < k.curspl
          → k.in_interrupt ≡ 0
          → (k' : Kernel) × (thread_sleep addr k ≡ ok (tt, k'))
            × Keeps laws n k k'
            × (k'.curthread ≡ x)
            × (queued k'.runqueue ≡ xs)
      thread_sleep-Keeps addr off quiet = (
        asleep_on addr k h.current.thread h.sleepers,
        thread_sleep_lem addr k h.current.thread h.sleepers
            (record {
              off = off;
              running = h.current.real;
              found = h.current.found;
              magic = h.current.magic;
            })
            quiet h.array may_add.0,
        asleep_on-Keeps addr,
        (laws.scheduler-queued k.runqueue x xs e).0,
        (laws.scheduler-queued k.runqueue x xs e).1,
      )

    -- The sleepers on `addr` have moved to the run queue.
    abbrev pub Moved : Ptr → os.Arr → os.RunQueue → Type 0
    Moved addr s q =
        (view s ≡ reject (waits k.threads addr) (view h.sleepers))
        × (queued q ≡ queued k.runqueue ++ select (waits k.threads addr) (view h.sleepers))
        × HasSlots q n
        × HasRoom s n

    abbrev pub moved-Keeps :
        (addr : Ptr) (s : os.Arr) (q : os.RunQueue)
        → Moved addr s q
        → Keeps laws n k (record k { sleepers = some s; runqueue = q })
    moved-Keeps addr s q (kept, woken, slots, left) =
        let (hits, misses) = AreAlive-select k.threads test (view h.sleepers) h.asleep in
        record {
          healthy = record {
            sleepers = s;
            array = refl;
            current = h.current;
            ready = rw woken (AreAlive-append k.threads (queued k.runqueue) _ h.ready hits);
            asleep = rw kept misses;
            room = left;
            slots = slots;
            fits = omega (
              arith,
              h.fits,
              ap length kept,
              ap length woken,
              length-append (queued k.runqueue) (select test (view h.sleepers)),
              length-select test (view h.sleepers),
            );
          };
          same = λ p. rw h.array (
              omega (
                arith,
                ap (occurrences p) kept,
                ap (occurrences p) woken,
                occurrences-append p (queued k.runqueue) (select test (view h.sleepers)),
                occurrences-select p test (view h.sleepers),
              ));
        }
      where
        test : Ptr → Bool
        test = waits k.threads addr

    pub thread_wakeup-Keeps :
        (addr : Ptr)
        → 0 < k.curspl
        → (k' : Kernel) × (thread_wakeup addr k ≡ ok (tt, k')) × Keeps laws n k k'
    thread_wakeup-Keeps addr off =
        let (s, q, run, kept, woken, slots, left) =
          thread_wakeup-Woken laws addr n k h.sleepers h.array off
            (AreAlive-AreThreads k.threads (view h.sleepers) h.asleep) h.slots h.room
            (omega (arith, h.fits)) in
        (
          record k { sleepers = some s; runqueue = q },
          run,
          moved-Keeps addr s q (kept, woken, slots, left),
        )
