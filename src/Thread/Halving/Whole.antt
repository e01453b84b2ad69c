-- ===== src/Thread/Halving/Whole.antt =====
-- thread_exit from its call to its first switch.
use cse4300_project.Prelude.{
  suc, ◌+◌, ◌-◌, ◌/◌, ◌^◌, ◌≡◌, ◌≢◌, ◌∙◌, true, false, List, some, arith, ◌==◌, if◌then◌else◌,
  length, inl, inr, Bool-cases,
}
use cse4300_project.Platform.{Ptr, Platform, Laws}
use cse4300_project.Kernel.{Kernel, Thread, K, ok, int32, is_positive, update, ◌>>=◌, read}
use cse4300_project.Thread.Switch.{s_join, has_magic, switch_out, switch_to_next, stash}
use cse4300_project.Thread.Join.{current}
use cse4300_project.Thread.Population.{occurrences}
use cse4300_project.Thread.Joining.{CanSearch}
use cse4300_project.Thread.Attached.{IsDistinct}
use cse4300_project.Thread.Exit.{detach_loop, exit_finish, thread_exit}
use cse4300_project.Thread.Halving.{AreAttached, left, after-current}
use cse4300_project.Thread.Halving.Released.{
  bare, released, release_resources_lem, released-AreAttached, released-CanSearch,
}
use cse4300_project.Thread.Halving.Loop.{detach_loop-halves}

module _ ⦃os : Platform⦄ (laws : Laws os) {k : Kernel} {cur : Thread} {ch s z j : os.Arr}
    (can : CanSearch laws k cur ch s z j) where
  open laws use {view}

  -- The current thread may exit: it is a thread of the kernel's, and the arrays take it.
  pub record MayExit : Type 0 where
    pub real : k.curthread ≢ 0
    pub magic : has_magic cur ≡ true
    pub counted : is_positive k.numthreads ≡ true
    pub joins : (os.array_add j k.curthread).code ≡ 0
    pub zombie : (os.array_add z k.curthread).code ≡ 0

  abbrev quiet : Kernel
  quiet = record k { curspl = (os.splhigh k.curspl).1 }

  -- Interrupts are off, the exiting thread has given back what it held, and one thread less is
  -- counted.
  abbrev pub leaving : Kernel
  leaving = record (released quiet cur) { numthreads = int32 (k.numthreads + 2 ^ 32 - 1) }

  pub leaving-CanSearch : CanSearch laws leaving (bare cur) ch s z j
  leaving-CanSearch =
      let given = released-CanSearch laws can in
      record {
        running = given.running;
        null = given.null;
        whole = given.whole;
        children = given.children;
        sleepers = given.sleepers;
        zombies = given.zombies;
        joinable = given.joinable;
        whole_children = given.whole_children;
        whole_sleepers = given.whole_sleepers;
        whole_zombies = given.whole_zombies;
        whole_joinable = given.whole_joinable;
      }

  -- What thread_exit does behind its loop.
  abbrev rest : K (Unit {0})
  rest = do
    cur ← current
    detached ← read cur.is_detached
    if detached == 0 then switch_out s_join else exit_finish

  thread_exit-enter :
      (k' : Kernel)
      → MayExit
      → detach_loop (suc (os.array_getnum ch)) 0 leaving ≡ ok (tt, k')
      → thread_exit k ≡ rest k'
  unfolding thread_exit
  thread_exit-enter k' m run = ground (
    arith,
    can.running,
    can.children,
    m.magic,
    m.counted,
    release_resources_lem quiet cur can.running,
    leaving-CanSearch.running,
    run,
  )

  -- The thread has left the processor to the next one of the scheduler, and waits to be joined, or,
  -- detached, to be buried. It has the children `a`, and those in `gone` are detached.
  abbrev pub exited : os.Arr → List Ptr → Kernel
  exited a gone =
      let k' = left laws leaving-CanSearch a gone in
      let (next, queue) = os.scheduler k.runqueue in
      if cur.is_detached.value == 0
      then record k' {
        curthread = next;
        runqueue = queue;
        joinable = some (os.array_add j k.curthread).value;
      }
      else record k' {
        curthread = next;
        runqueue = queue;
        zombies = some (os.array_add z k.curthread).value;
        threads = update k'.threads k.curthread (
            some (record (bare cur) {
              children = some a;
              has_exited = record cur.has_exited { value = 1 };
            }));
      }

  module _ (a : os.Arr) (gone : List Ptr) (m : MayExit) where
    rest-join :
        (cur.is_detached.value == 0) ≡ true
        → rest (left laws leaving-CanSearch a gone) ≡ ok (tt, exited a gone)
    unfolding switch_out switch_to_next stash
    rest-join joins = ground (
      arith,
      after-current laws leaving-CanSearch a gone,
      can.whole.detached_live,
      laws.splhigh_pos k.curspl,
      can.joinable,
      m.real,
      m.magic,
      m.joins,
    )

    rest-zombie :
        (cur.is_detached.value == 0) ≡ false
        → rest (left laws leaving-CanSearch a gone) ≡ ok (tt, exited a gone)
    unfolding switch_out switch_to_next stash exit_finish
    rest-zombie alone = ground (
      arith,
      after-current laws leaving-CanSearch a gone,
      can.whole.detached_live,
      can.whole.exited_live,
      laws.splhigh_pos k.curspl,
      can.zombies,
      m.real,
      m.magic,
      m.zombie,
    )

  -- Thread_exit, up to its first switch, goes through for any number n of children: exactly n / 2
  -- of them, rounded down, are still children and not detached, and the others are no longer
  -- children and detached, each once; the address space, if there is one, is destroyed, and then
  -- the working directory, if there is one, is given back; one thread less is counted, interrupts
  -- are off, the next thread of the scheduler is current, and the exiting thread stands last in
  -- joinable, or, if it is detached, has exited and stands last among the zombies; nothing else
  -- changes. Conditions: the children are different allocated threads, none is detached or the
  -- exiting thread, each has the exiting thread's pid as its parent; the arrays point to threads
  -- whose members are allocated; the exiting thread has its magic number intact, the count of
  -- threads is positive, and joinable and zombies take one more entry.
  pub thread_exit_lem :
      MayExit
      → AreAttached k.threads cur.t_pid.value k.curthread (view ch)
      → IsDistinct (view ch)
      → (a : os.Arr) × (gone : List Ptr) × (thread_exit k ≡ ok (tt, exited a gone))
        × (length (view a) ≡ length (view ch) / 2)
        × ((p : Ptr) → occurrences p (view a) + occurrences p gone ≡ occurrences p (view ch))
  thread_exit_lem m attached distinct =
      let (a, gone, run, half, split) =
        detach_loop-halves laws leaving-CanSearch
          (released-AreAttached k cur cur.t_pid.value (view ch) attached) distinct in
      let behind : rest (left laws leaving-CanSearch a gone) ≡ ok (tt, exited a gone) =
        elim (Bool-cases (cur.is_detached.value == 0)) [
          | inl joins ↦ rest-join a gone m joins
          | inr alone ↦ rest-zombie a gone m alone
        ] in
      (a, gone, thread_exit-enter (left laws leaving-CanSearch a gone) m run ∙ behind, half, split)
