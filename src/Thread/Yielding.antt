-- ===== src/Thread/Yielding.antt =====
-- What thread_yield of thread.c does, up to the switch.
use cse4300_project.Prelude.{
  ℕ, ◌<◌, ◌≡◌, ap, ◌∙◌, List, [], ◌∷◌, ◌++◌, some, arith, length, length-append,
}
use cse4300_project.Platform.{Ptr, Platform, Laws}
use cse4300_project.Kernel.{Kernel, ok}
use cse4300_project.Thread.Switch.{thread_yield, switch_out, switch_to_next, stash}
use cse4300_project.Thread.Population.{
  occurrences, occurrences-append, IsAlive, AreAlive, AreAlive-append, Keeps,
}
use cse4300_project.Thread.Conservation.{Healthy}

module _ ⦃os : Platform⦄ where
  -- The kernel once the current thread has joined the run queue and the next one runs.
  abbrev pub yielded : Kernel → Kernel
  yielded k =
      let q = (os.make_runnable k.runqueue k.curthread).value in
      record k {
        curspl = (os.splhigh k.curspl).1;
        curthread = (os.scheduler q).0;
        runqueue = (os.scheduler q).1;
      }

  pub thread_yield_lem :
      (k : Kernel) (a : os.Arr)
      → IsAlive k.threads k.curthread
      → 0 < (os.splhigh k.curspl).1
      → k.sleepers ≡ some a
      → (os.make_runnable k.runqueue k.curthread).code ≡ 0
      → thread_yield k ≡ ok ((os.splhigh k.curspl).0, yielded k)
  unfolding thread_yield switch_out switch_to_next stash
  thread_yield_lem k a v off e runs = ground (arith, v.found, v.magic, v.real)

module _ ⦃os : Platform⦄ (laws : Laws os) (n : ℕ) where
  open laws use {view, queued, HasRoom, HasSlots}

  module _ (k : Kernel) (h : Healthy laws n k) (x : Ptr) (xs : List Ptr)
      (e : queued k.runqueue ++ k.curthread ∷ [] ≡ x ∷ xs) where
    may_run :
        ((os.make_runnable k.runqueue k.curthread).code ≡ 0)
        × HasSlots (os.make_runnable k.runqueue k.curthread).value n
    may_run = laws.make_runnable-HasSlots k.runqueue k.curthread n h.slots (omega (arith, h.fits))

    queue : queued (os.make_runnable k.runqueue k.curthread).value ≡ x ∷ xs
    queue = laws.make_runnable-queued k.runqueue k.curthread may_run.0 ∙ e

    turn : ((yielded k).curthread ≡ x) × (queued (yielded k).runqueue ≡ xs)
    turn = laws.scheduler-queued (os.make_runnable k.runqueue k.curthread).value x xs queue

    yielded-Keeps : Keeps laws n k (yielded k)
    yielded-Keeps = record {
      healthy = record {
        sleepers = h.sleepers;
        array = h.array;
        current = rw (turn.0) alive.0;
        ready = rw (turn.1) alive.1;
        asleep = h.asleep;
        room = h.room;
        slots = laws.scheduler-HasSlots (os.make_runnable k.runqueue k.curthread).value n may_run.1;
        fits = omega (
          arith,
          h.fits,
          ap length turn.1,
          ap length e,
          length-append (queued k.runqueue) (k.curthread ∷ []),
        );
      };
      same = λ p.
          rw (h.array, turn.0)
            (omega (
              arith,
              ap (occurrences p) turn.1,
              ap (occurrences p) e,
              occurrences-append p (queued k.runqueue) (k.curthread ∷ []),
            ));
    }
      where
        alive : AreAlive k.threads (x ∷ xs)
        alive = rw e at (
            AreAlive-append k.threads (queued k.runqueue) (k.curthread ∷ []) h.ready
              (h.current, tt))

    -- In a healthy kernel thread_yield goes through, and the head of the queue runs next.
    pub thread_yield-Keeps :
        (k' : Kernel) × (thread_yield k ≡ ok (k.curspl, k'))
        × Keeps laws n k k'
        × (k'.curthread ≡ x)
        × (queued k'.runqueue ≡ xs)
    thread_yield-Keeps = (
      yielded k,
      thread_yield_lem k h.sleepers h.current (laws.splhigh_pos k.curspl) h.array may_run.0
          ∙ ap (λ s. ok (s, yielded k)) (laws.splhigh_back k.curspl),
      yielded-Keeps,
      turn.0,
      turn.1,
    )
