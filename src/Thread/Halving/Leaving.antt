-- ===== src/Thread/Halving/Leaving.antt =====
-- What thread_exit leaves of a healthy kernel.
use cse4300_project.Prelude.{
  ℕ, ◌+◌, ◌≡◌, ◌∙◌, refl, ap, false, List, ◌∷◌, some, arith, ◌==◌, if◌then◌else◌, inl, inr,
  Bool-cases, length,
}
use cse4300_project.Platform.{Ptr, Platform, Laws}
use cse4300_project.Kernel.{Kernel, Thread, ok, update}
use cse4300_project.Thread.Exit.{thread_exit}
use cse4300_project.Thread.Population.{occurrences, IsHealthy, population}
use cse4300_project.Thread.Joining.{CanSearch}
use cse4300_project.Thread.Attached.{IsDistinct}
use cse4300_project.Thread.Forking.Growth.{Spares, Spares-AreAlive, Spares-IsAt, update-IsAt}
use cse4300_project.Thread.Halving.{AreAttached, left}
use cse4300_project.Thread.Halving.Released.{bare}
use cse4300_project.Thread.Halving.Whole.{MayExit, leaving-CanSearch, exited, thread_exit_lem}

module _ ⦃os : Platform⦄ (laws : Laws os) (n : ℕ) where
  open laws use {view, queued}

  -- `k'` is healthy and runs the thread `x`; it holds the threads that `k` holds, less the current
  -- one of `k`.
  pub record Loses (k k' : Kernel) (x : Ptr) : Type 0 where
    pub healthy : IsHealthy laws n k'
    pub same :
        (p : Ptr)
        → population laws n p k' k'.sleepers + (if p == k.curthread then 1 else 0)
          ≡ population laws n p k k.sleepers
    pub next : k'.curthread ≡ x

  -- The next thread runs, and nothing is put in a queue.
  Loses-switched :
      (k k' : Kernel) (x : Ptr) (xs : List Ptr) (h : IsHealthy laws n k)
      → queued k.runqueue ≡ x ∷ xs
      → Spares k.threads k'.threads
      → k'.sleepers ≡ some h.sleepers
      → k'.curthread ≡ (os.scheduler k.runqueue).0
      → k'.runqueue ≡ (os.scheduler k.runqueue).1
      → Loses k k' x
  Loses-switched k k' x xs h e spares array current queue =
      let next = laws.scheduler-queued k.runqueue x xs e in
      let line = rw e at h.ready in
      let head : k'.curthread ≡ x = current ∙ next.0 in
      let tail : queued k'.runqueue ≡ xs = ap queued queue ∙ next.1 in
      record {
        healthy = record {
          sleepers = h.sleepers;
          array = array;
          current = rw head (spares x line.0);
          ready = rw tail (Spares-AreAlive k.threads k'.threads xs spares line.1);
          asleep = Spares-AreAlive k.threads k'.threads (view h.sleepers) spares h.asleep;
          room = h.room;
          slots = rw queue (laws.scheduler-HasSlots k.runqueue n h.slots);
          fits = omega (arith, h.fits, ap length e, ap length tail);
        };
        same = λ p.
            rw (array, h.array, head)
              (omega (arith, ap (occurrences p) e, ap (occurrences p) tail));
        next = head;
      }

  module _ {k : Kernel} {cur : Thread} {ch s z j : os.Arr} (can : CanSearch laws k cur ch s z j)
      (m : MayExit laws can) (a : os.Arr) (gone : List Ptr) where
    -- The exiting thread keeps its magic number, and a detached child does.
    left-Spares : Spares k.threads (left laws (leaving-CanSearch laws can) a gone).threads
    left-Spares p v = elim (Bool-cases (p == k.curthread)) [
      | inl here ↦ record {
        real = v.real;
        thread = record (bare cur) { children = some a };
        found = rw here refl;
        magic = m.magic;
      }
      | inr there ↦
          let other : (k.curthread == p) ≡ false = ground arith in
          elim (Bool-cases (occurrences p gone == 0)) [
            | inl kept ↦ record {
              real = v.real;
              thread = v.thread;
              found = rw (there, kept, other) v.found;
              magic = v.magic;
            }
            | inr out ↦ record {
              real = v.real;
              thread = record v.thread { is_detached = record v.thread.is_detached { value = 1 } };
              found = rw (there, out, other, v.found) refl;
              magic = v.magic;
            }
          ]
    ]

    exited-Loses :
        (x : Ptr) (xs : List Ptr)
        → IsHealthy laws n k
        → queued k.runqueue ≡ x ∷ xs
        → Loses k (exited laws can a gone) x
    exited-Loses x xs h e = elim (Bool-cases (cur.is_detached.value == 0)) [
      | inl joins ↦ rw joins (Loses-switched k _ x xs h e left-Spares h.array refl refl)
      | inr alone ↦ rw alone (Loses-switched k _ x xs h e zombie-Spares h.array refl refl)
    ]
      where
        buried : Thread
        buried = record (bare cur) {
          children = some a;
          has_exited = record cur.has_exited { value = 1 };
        }

        zombie-Spares : Spares k.threads (
            update
              (left laws (leaving-CanSearch laws can) a gone).threads
              k.curthread
              (some buried))
        zombie-Spares p v =
            Spares-IsAt (left laws (leaving-CanSearch laws can) a gone).threads _ k.curthread buried
              m.magic (update-IsAt _ k.curthread buried) p (left-Spares p v)

  module _ {k : Kernel} {cur : Thread} {ch s z j : os.Arr}
      (can : CanSearch laws k cur ch s z j) where
    -- In a healthy kernel with a ready thread, thread_exit, up to its first switch, keeps the
    -- kernel healthy: the thread that was first in the run queue is current, the exiting thread
    -- stands once less among the current one, the run queue and the sleepers, and every other
    -- thread as often as before; all of them are still allocated with their magic numbers intact,
    -- with room for them in the sleepers array and the run queue. Conditions: those of
    -- thread_exit_lem.
    pub thread_exit-Loses :
        MayExit laws can
        → AreAttached k.threads cur.t_pid.value k.curthread (view ch)
        → IsDistinct (view ch)
        → (x : Ptr) (xs : List Ptr) → IsHealthy laws n k
        → queued k.runqueue ≡ x ∷ xs
        → (k' : Kernel) × (thread_exit k ≡ ok (tt, k')) × Loses k k' x
    thread_exit-Loses m attached distinct x xs h e =
        let (a, gone, run, _, _) = thread_exit_lem laws can m attached distinct in
        (exited laws can a gone, run, exited-Loses can m a gone x xs h e)
