-- ===== src/Thread/Forking/Refusal.antt =====
-- thread_fork of thread.c where a preallocation fails.
use cse4300_project.Prelude.{ℕ, ◌≡◌, ◌≢◌, refl, ap, ◌∙◌, Bool, ◌∷◌, Option, none, some, arith}
use cse4300_project.Platform.{Ptr, Platform, Laws, Log, kmalloc_call}
use cse4300_project.Kernel.{Kernel, Thread, ok, update}
use cse4300_project.Thread.Create.{thread_create}
use cse4300_project.Thread.Fork.{thread_fork, furnish, reserve_and_run, fork_fail}
use cse4300_project.Thread.Forking.Furnishing.{
  HasMemory, new_struct, furnish_log, new_thread, new_at, created_log, thread_create_lem, furnished,
  furnish_lem, IsAt,
}
use cse4300_project.Thread.Forking.Reserving.{HasArrays}
use cse4300_project.Thread.Forking.Run.{masked}
use cse4300_project.Thread.Forking.Preallocation.{
  first_failure, fail_log, fork_fail_lem, codes, Untouched, reserve_and_run-fails,
}

module _ ⦃os : Platform⦄ (laws : Laws os) where
  open laws use {queued}

  -- The new thread as it is when a preallocation fails.
  abbrev pub refused : Ptr → Kernel → Thread → Thread
  refused name k cur =
      let log = created_log name k.log in
      furnished (new_struct name k.log none) (os.kmalloc log).at cur.t_cwd

  -- All calls of a thread_fork that is refused, the latest first: thread_create and the stack, the
  -- working directory and the pcb, and the label `fail`.
  abbrev pub refused_log : Ptr → Kernel → Thread → Log
  refused_log name k cur =
      fail_log (new_at k) (refused name k cur)
        (furnish_log (new_at k) cur.t_cwd (kmalloc_call ∷ created_log name k.log))

  -- The new thread is gone, the calls of `refused_log` have been made, and the others are where they
  -- were.
  pub record Refuses (name : Ptr) (k k' : Kernel) (cur : Thread) (newguy : Ptr) : Type 0 where
    pub gone : k'.threads newguy ≡ none
    pub others : (q : Ptr) → q ≢ k.curthread → q ≢ newguy → k'.threads q ≡ k.threads q
    pub current : k'.curthread ≡ k.curthread
    pub count : k'.numthreads ≡ k.numthreads
    pub level : k'.curspl ≡ k.curspl
    pub ready : queued k'.runqueue ≡ queued k.runqueue
    pub freed : k'.log ≡ refused_log name k cur

  thread_fork_failed :
      (name newguy : Ptr) (wants_pid : Bool) (code : ℕ) (k k1 k3 k5 k' : Kernel)
      → newguy ≢ 0
      → code ≢ 0
      → thread_create name k ≡ ok (newguy, k1)
      → (os.kmalloc k1.log).at ≢ 0
      → furnish newguy (os.kmalloc k1.log).at (record k1 { log = kmalloc_call ∷ k1.log })
        ≡ ok (tt, k3)
      → reserve_and_run newguy (masked k3) ≡ ok (code, k5)
      → fork_fail (os.splhigh k3.curspl).0 newguy k5 ≡ ok (tt, k')
      → thread_fork name wants_pid k ≡ ok ((code, none), k')
  unfolding thread_fork
  thread_fork_failed name newguy wants_pid code k k1 k3 k5 k' real bad made stack furnished room
        failed =
      ground (arith, made, furnished, room, failed)

  -- The kernel after `fail`.
  abbrev cleaned : Kernel → ℕ → Ptr → Thread → Kernel
  cleaned k level newguy t = record k {
    curspl = os.splx k.curspl level;
    threads = update k.threads newguy none;
    log = fail_log newguy t k.log;
  }

  cleaned-Refuses :
      (name : Ptr) (k k5 : Kernel) (cur : Thread) (newguy : Ptr) (t guy : Thread) (log : Log)
      (threads : Ptr → Option Thread)
      → IsAt (update k.threads newguy (some t)) newguy guy threads
      → Untouched laws (masked (record k { threads = threads; log = log })) k5
      → fail_log newguy guy k5.log ≡ refused_log name k cur
      → Refuses name k (cleaned k5 (os.splhigh k.curspl).0 newguy guy) cur newguy
  cleaned-Refuses name k k5 cur newguy t guy log threads at u freed = record {
    gone = ground arith;
    others = λ q away apart.
        let step : threads q ≡ update k.threads newguy (some t) q =
          at.1 q (ground (arith, apart)) in
        ground (arith, apart, u.others q away, step);
    current = u.current;
    count = u.count;
    level = laws.splx_restores _ _ ∙ laws.splhigh_back k.curspl;
    ready = u.ready;
    freed = freed;
  }

  module _ (memory : HasMemory) (name : Ptr) (wants_pid : Bool) (k : Kernel) (cur : Thread)
      (h : HasArrays k cur) (fresh : new_at k ≢ k.curthread)
      (running : k.threads k.curthread ≡ some cur) (bad : first_failure (codes k cur h) ≢ 0) where
    abbrev newguy : Ptr
    newguy = new_at k

    -- thread_fork returns the code of the preallocation that failed, and refuses.
    abbrev pub IsRefused : Type 0
    IsRefused =
        (k' : Kernel) × (thread_fork name wants_pid k
          ≡ ok ((first_failure (codes k cur h), none), k'))
        × Refuses name k k' cur newguy

    -- The new thread is `t` at the end of thread_create, and then `threads` with a stack.
    module _ (t : Thread) (log log' : Log) (threads : Ptr → Option Thread) where
      abbrev made : Kernel
      made = record k { threads = update k.threads newguy (some t); log = log }

      abbrev equipped : Kernel
      equipped = record k { threads = threads; log = log' }

      abbrev guy : Thread
      guy = furnished t (os.kmalloc log).at cur.t_cwd

      abbrev arrays : HasArrays (masked equipped) cur
      arrays = record {
        sleepers = h.sleepers;
        zombies = h.zombies;
        joinable = h.joinable;
        children = h.children;
        asleep = h.asleep;
        dead = h.dead;
        joined = h.joined;
        family = h.family;
      }

      made_running : made.threads k.curthread ≡ some cur
      made_running = ground (arith, fresh, running)

      equipped-Refuses :
          thread_create name k ≡ ok (newguy, made)
          → furnish newguy (os.kmalloc log).at (record made { log = kmalloc_call ∷ log })
            ≡ ok (tt, equipped)
          → IsAt made.threads newguy guy threads
          → fail_log newguy guy log' ≡ refused_log name k cur
          → IsRefused
      equipped-Refuses created run at calls =
          let (k5, failed, u) =
            reserve_and_run-fails laws newguy (masked equipped) cur arrays
              (at.1 k.curthread fresh ∙ made_running) bad in
          (
            cleaned k5 (os.splhigh k.curspl).0 newguy guy,
            thread_fork_failed name newguy wants_pid (first_failure (codes k cur h)) k made equipped
                k5 (cleaned k5 (os.splhigh k.curspl).0 newguy guy) (memory.blocks k.log) bad created
                (memory.blocks log) run failed
                (fork_fail_lem (os.splhigh k.curspl).0 newguy k5 guy
                  (u.others newguy fresh ∙ at.0)),
            cleaned-Refuses name k k5 cur newguy t guy log' threads at u
                (ap (fail_log newguy guy) u.log ∙ calls),
          )

    -- Where one of the five preallocations fails, thread_fork returns the code of the first that
    -- does and no pointer; the new thread is not allocated any more, the run queue, the current
    -- thread, the number of threads and the interrupt level are as before, and so is every other
    -- thread but the current one. The calls that it has made are, in order, those that make the
    -- new thread, its stack, its working directory and its pcb, and those that give up the
    -- directory and free the stack, the name and the other blocks of this very thread, its t_exit,
    -- is_detached and has_exited twice. Conditions: kmalloc, kstrdup and array_create do not fail,
    -- the arrays exist, and the block for the new thread is not the current thread.
    pub thread_fork-Refuses : IsRefused
    thread_fork-Refuses =
        let (a, created) = memory.arrays _ in
        let t = new_thread name k.log a in
        let log = created_log name k.log in
        let log' = furnish_log newguy cur.t_cwd (kmalloc_call ∷ log) in
        let (threads, run, at) =
          furnish_lem newguy (os.kmalloc log).at
            (record (made t log log (λ p. none)) { log = kmalloc_call ∷ log }) cur t fresh
            (made_running t log log (λ p. none)) (ground arith) in
        equipped-Refuses t log log' threads (thread_create_lem memory name k a created) run at refl
