-- ===== src/Thread/Forking/Reserving.antt =====
-- What thread_fork of thread.c sets aside, while memory lasts, before it makes the new thread runnable.
use cse4300_project.Prelude.{ℕ, ◌+◌, ◌≡◌, some, arith}
use cse4300_project.Platform.{Ptr, Platform}
use cse4300_project.Kernel.{Kernel, Thread, ok, int32, update}
use cse4300_project.Thread.Fork.{
  reserve_and_run, preallocate_children, preallocate_scheduler, disown,
}
use cse4300_project.Thread.Forking.Furnishing.{IsPlentiful}
use cse4300_project.Thread.Search.{IsWhole}

module _ ⦃os : Platform⦄ where
  -- The arrays that thread_fork makes room in, with the struct of the current thread.
  pub record HasArrays (k : Kernel) (cur : Thread) : Type 0 where
    pub sleepers : os.Arr
    pub zombies : os.Arr
    pub joinable : os.Arr
    pub children : os.Arr
    pub asleep : k.sleepers ≡ some sleepers
    pub dead : k.zombies ≡ some zombies
    pub joined : k.joinable ≡ some joinable
    pub family : cur.children ≡ some children

  abbrev pub roomy : os.Arr → ℕ → os.Arr
  roomy a n = (os.array_preallocate a n).value

  -- The children of `cur` with room for one more.
  abbrev pub with_room : Thread → os.Arr → Thread
  with_room cur ch = record cur { children = some (roomy ch (os.array_getnum ch + 1)) }

  -- The kernel with room for `n` threads, and the new one at the end of the run queue.
  abbrev pub reserved : Ptr → ℕ → (k : Kernel) (cur : Thread) → HasArrays k cur → Kernel
  reserved newguy n k cur h = record k {
    sleepers = some (roomy h.sleepers n);
    zombies = some (roomy h.zombies n);
    joinable = some (roomy h.joinable n);
    threads = update k.threads k.curthread (some (with_room cur h.children));
    runqueue = (os.make_runnable (os.scheduler_preallocate k.runqueue n).value newguy).value;
  }

  pub reserve_and_run_lem :
      (many : IsPlentiful) (newguy : Ptr) (k : Kernel) (cur : Thread) (h : HasArrays k cur)
      → k.threads k.curthread ≡ some cur
      → reserve_and_run newguy k
        ≡ ok (
          (os.make_runnable
              (os.scheduler_preallocate k.runqueue (int32 (k.numthreads + 1))).value
              newguy).code,
          reserved newguy (int32 (k.numthreads + 1)) k cur h,
        )
  unfolding reserve_and_run preallocate_children preallocate_scheduler
  reserve_and_run_lem many newguy k cur h running =
      let n = int32 (k.numthreads + 1) in
      ground (
        arith,
        running,
        h.asleep,
        h.dead,
        h.joined,
        h.family,
        many.rooms h.sleepers n,
        many.rooms h.zombies n,
        many.rooms h.joinable n,
        many.rooms h.children (os.array_getnum h.children + 1),
        many.slots k.runqueue n,
      )

  -- A child whose pid nobody wants has its two flags cleared.
  abbrev pub orphan_of : Thread → Thread
  orphan_of t = record t {
    is_detached = record t.is_detached { value = 0 };
    has_exited = record t.has_exited { value = 0 };
  }

  pub disown_lem :
      (newguy : Ptr) (k : Kernel) (t : Thread)
      → k.threads newguy ≡ some t
      → IsWhole t
      → disown newguy k
        ≡ ok (tt, record k { threads = update k.threads newguy (some (orphan_of t)) })
  unfolding disown
  disown_lem newguy k t found w = ground (arith, found, w.detached_live, w.exited_live)
