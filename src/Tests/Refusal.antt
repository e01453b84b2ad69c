-- ===== src/Tests/Refusal.antt =====
-- A platform on which no array can grow, one whose memory runs out, and a fork on each.
use cse4300_project.Prelude.{
  Option, ◌+◌, length, ◌==◌, if◌then◌else◌, true, ◌≡◌, ◌≢◌, refl, arith, [], none, some,
}
use cse4300_project.Platform.{Ptr, Platform, Laws}
use cse4300_project.Kernel.{Kernel, Thread, update, ok}
use cse4300_project.Thread.Switch.{magic_bytes}
use cse4300_project.Thread.Fork.{thread_fork}
use cse4300_project.Thread.Forking.Furnishing.{HasMemory, new_at}
use cse4300_project.Thread.Forking.Reserving.{HasArrays}
use cse4300_project.Thread.Forking.Refusal.{Refuses, thread_fork-Refuses}
use cse4300_project.Thread.Join.{enomem}
use cse4300_project.Thread.Forking.Starvation.{starved_log, thread_fork-starves}
use cse4300_project.Tests.Lists.{lists, lists_laws, cell}

abbrev cramped : Platform
cramped = record lists { array_preallocate = λ a n. record { code = 3; value = a } }

abbrev cramped_laws : Laws cramped
cramped_laws = record {
  view = λ a. a;
  HasRoom = λ a n. Unit {0};
  getnum-view = lists_laws.getnum-view;
  getguy-view = lists_laws.getguy-view;
  add-view = λ a p e. refl;
  add-HasRoom = λ a p n r h. (refl, tt);
  remove-HasRoom = λ a i n r h. tt;
  remove-view = λ a i h. refl;
  setsize_zero = λ a. refl;
  setsize-view = λ a. refl;
  create-view = lists_laws.create-view;
  preallocate-view = λ a n. refl;
  preallocate-HasRoom = λ a n e. tt;
  queued = λ q. q;
  HasSlots = λ q n. Unit {0};
  make_runnable-queued = λ q p e. refl;
  make_runnable-HasSlots = λ q p n s h. (refl, tt);
  scheduler-queued = lists_laws.scheduler-queued;
  scheduler-HasSlots = λ q n h. tt;
  scheduler_preallocate-queued = λ q n. refl;
  scheduler_preallocate-HasSlots = λ q n e. tt;
  splhigh_back = λ s. refl;
  splhigh_pos = λ s. omega arith;
  splx_restores = λ s old. refl;
}

abbrev only : Thread ⦃os = cramped⦄
only = record {
  t_name = 400;
  t_sleepaddr = 0;
  t_stack = 300;
  magic = magic_bytes;
  t_pid = cell 1;
  parent = cell 0;
  t_exit = cell 0;
  is_detached = cell 0;
  has_exited = cell 0;
  children = some [];
  t_vmspace = 0;
  t_cwd = 0;
}

abbrev small : Kernel ⦃os = cramped⦄
small = record {
  curthread = 1;
  threads = update (λ p. none) 1 (some only);
  sleepers = some [];
  zombies = some [];
  joinable = some [];
  runqueue = [];
  numthreads = 1;
  curspl = 0;
  in_interrupt = 0;
  semaphores = λ p. none;
  locks = λ p. none;
  cvs = λ p. none;
  log = [];
}

memory : HasMemory ⦃os = cramped⦄
memory = record {
  blocks = λ log. omega arith;
  strings = λ log s. omega arith;
  arrays = λ log. ([], refl);
}

abbrev arrays : HasArrays ⦃os = cramped⦄ small only
arrays = record {
  sleepers = [];
  zombies = [];
  joinable = [];
  children = [];
  asleep = refl;
  dead = refl;
  joined = refl;
  family = refl;
}

fresh : new_at ⦃os = cramped⦄ small ≢ 1
fresh = omega arith

thread_fork-Refuses_example :
    (k' : Kernel ⦃os = cramped⦄) × (thread_fork ⦃os = cramped⦄ 400 true small ≡ ok ((3, none), k'))
    × Refuses ⦃os = cramped⦄ cramped_laws 400 small k' only 100
thread_fork-Refuses_example =
    thread_fork-Refuses ⦃os = cramped⦄ cramped_laws memory 400 true small only arrays fresh refl
      (omega arith)

-- The ninth allocation fails: the stack of the new thread.
abbrev starving : Platform
starving = record lists {
  kmalloc = λ log. record { at = if length log == 8 then 0 else 100 + length log; content = 7 };
}

abbrev idle : Kernel ⦃os = starving⦄
idle = record {
  curthread = 1;
  threads = λ p. none;
  sleepers = none;
  zombies = none;
  joinable = none;
  runqueue = [];
  numthreads = 1;
  curspl = 0;
  in_interrupt = 0;
  semaphores = λ p. none;
  locks = λ p. none;
  cvs = λ p. none;
  log = [];
}

thread_fork-starves_example :
    (threads : Ptr → Option (Thread ⦃os = starving⦄)) × (thread_fork ⦃os = starving⦄ 400 true idle
      ≡ ok (
        (enomem, none),
        record idle { threads = threads; log = starved_log ⦃os = starving⦄ 400 idle },
      ))
    × ((q : Ptr) → q ≢ 100 → threads q ≡ none)
thread_fork-starves_example = thread_fork-starves ⦃os = starving⦄ 400 idle true (ground arith)
