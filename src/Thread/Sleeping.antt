-- ===== src/Thread/Sleeping.antt =====
-- What thread_sleep does up to the switch.
use cse4300_project.Prelude.{◌<◌, ◌≡◌, ◌≢◌, true, some, arith}
use cse4300_project.Platform.{Ptr, Platform}
use cse4300_project.Kernel.{Kernel, Thread, ok, update}
use cse4300_project.Thread.Switch.{has_magic, thread_sleep, switch_out, switch_to_next, stash}

module _ ⦃os : Platform⦄ where
  -- The current thread `t` may give up the processor.
  pub record MaySwitch (k : Kernel) (t : Thread) : Type 0 where
    pub off : 0 < k.curspl
    pub running : k.curthread ≢ 0
    pub found : k.threads k.curthread ≡ some t
    pub magic : has_magic t ≡ true

  -- The kernel once the current thread `t` sleeps on `addr`, in the array `a` of sleepers.
  abbrev pub asleep_on : Ptr → Kernel → Thread → os.Arr → Kernel
  asleep_on addr k t a = record k {
    curthread = (os.scheduler k.runqueue).0;
    threads = update k.threads k.curthread (some (record t { t_sleepaddr = addr }));
    sleepers = some (os.array_add a k.curthread).value;
    runqueue = (os.scheduler k.runqueue).1;
  }

  -- Thread_sleep(addr) up to the switch: the current thread gets the sleep address addr and stands
  -- at the end of the sleepers, and the next thread of the scheduler becomes current; nothing else
  -- changes. Conditions: interrupts are off, outside an interrupt handler, the current thread is
  -- allocated with its magic number intact, and the sleepers array takes one more entry.
  pub thread_sleep_lem :
      (addr : Ptr) (k : Kernel) (t : Thread) (a : os.Arr)
      → MaySwitch k t
      → k.in_interrupt ≡ 0
      → k.sleepers ≡ some a
      → (os.array_add a k.curthread).code ≡ 0
      → thread_sleep addr k ≡ ok (tt, asleep_on addr k t a)
  unfolding thread_sleep switch_out switch_to_next stash
  thread_sleep_lem addr k t a m quiet e room = ground (arith, m.found, m.magic)
