-- ===== src/Tests/System.antt =====
-- The concrete kernel as a whole: its threads, its semaphore, and whose turn it is.
use cse4300_project.Prelude.{ℕ, ◌≡◌, ◌≢◌, refl, arith, List, [], ◌∷◌, some}
use cse4300_project.Platform.{Ptr}
use cse4300_project.Kernel.{Kernel, ok}
use cse4300_project.Thread.Population.{IsAlive, IsHealthy, Keeps}
use cse4300_project.Thread.Yielding.{yielded, thread_yield_lem}
use cse4300_project.Thread.Fairness.{Turns, start, yields, Turns-fair}
use cse4300_project.Thread.Forking.Furnishing.{IsPlentiful}
use cse4300_project.Thread.Forking.Growth.{MayFork}
use cse4300_project.Synch.Semaphore.{Outcome, p_start, v_run}
use cse4300_project.Synch.Calls.{p, perform, Counts, MayBlock}
use cse4300_project.Synch.Keeping.{perform-Keeps}
use cse4300_project.Synch.Abstract.{lower, take}
use cse4300_project.Synch.Lock.{lock_acquire, lock_release}
use cse4300_project.Synch.Locking.{LockBecomes, lock_acquire-refines, lock_release-refines}
use cse4300_project.Synch.Waiting.{NoLostWakeup}
use cse4300_project.Synch.Wakeups.{perform-NoLostWakeup}
use cse4300_project.Synch.Refinement.{Becomes, v_run-refines, p_start-refines}
use cse4300_project.Tests.Lists.{lists, lists_laws, machine, thread_at}
use cse4300_project.Tests.Synch.{semaphore, lock, no_lost_wakeup}

abbrev alive :
    (addr : Ptr) (pid parent : ℕ) (children : List Ptr) (q : Ptr)
    → q ≢ 0
    → machine.threads q ≡ some (thread_at addr pid parent children)
    → IsAlive machine.threads q
alive addr pid parent children q real found = record {
  real = real;
  thread = thread_at addr pid parent children;
  found = found;
  magic = refl;
}

abbrev machine-IsHealthy : IsHealthy lists_laws 4 machine
machine-IsHealthy = record {
  sleepers = 2 ∷ 3 ∷ [];
  array = refl;
  current = alive 0 1 0 (2 ∷ 3 ∷ []) 1 (ground arith) refl;
  ready = (alive 0 4 0 [] 4 (ground arith) refl, tt);
  asleep = (alive 10 2 1 [] 2 (ground arith) refl, (alive 20 2 1 [] 3 (ground arith) refl, tt));
  room = tt;
  slots = tt;
  fits = omega arith;
}

abbrev counts : Counts lists_laws 4 machine 10
counts = record { real = ground arith; semaphore = semaphore; found = refl; fits = omega arith }

may_block : MayBlock lists_laws 4 machine
may_block = record { quiet = refl; first = 4; others = []; ready = refl }

perform-Keeps_example :
    (k' : Kernel) × (perform (p 10) machine ≡ ok (tt, k')) × Keeps lists_laws 4 machine k'
perform-Keeps_example =
    perform-Keeps lists_laws 4 (p 10) machine machine-IsHealthy (counts, may_block)

perform-NoLostWakeup_example :
    (k' : Kernel) × (perform (p 10) machine ≡ ok (tt, k')) × NoLostWakeup lists_laws k'
perform-NoLostWakeup_example =
    perform-NoLostWakeup lists_laws 4 (p 10) machine machine-IsHealthy no_lost_wakeup
      (counts, may_block) refl

lock_release-refines_example :
    (k' : Kernel) × (lock_release 20 machine ≡ ok (tt, k'))
    × LockBecomes lists_laws machine 20 (record { value = 0; waiting = [] }) k'
lock_release-refines_example =
    lock_release-refines lists_laws 4 machine machine-IsHealthy 20 lock
      (record { real = ground arith; found = refl; mine = refl })

-- Thread 4 runs, and thread 1, which owns the lock, is ready.
abbrev other_machine : Kernel
other_machine = record machine { curthread = 4; runqueue = 1 ∷ [] }

abbrev other-IsHealthy : IsHealthy lists_laws 4 other_machine
other-IsHealthy = record {
  sleepers = 2 ∷ 3 ∷ [];
  array = refl;
  current = alive 0 4 0 [] 4 (ground arith) refl;
  ready = (alive 0 1 0 (2 ∷ 3 ∷ []) 1 (ground arith) refl, tt);
  asleep = machine-IsHealthy.asleep;
  room = tt;
  slots = tt;
  fits = omega arith;
}

lock_acquire-refines_example :
    (r : Outcome) × (k' : Kernel) × (lock_acquire 20 other_machine ≡ ok ((15, r), k'))
    × (r ≡ (take 4 (record { value = 1; waiting = 3 ∷ [] })).0)
    × LockBecomes lists_laws other_machine 20 (record { value = 1; waiting = 3 ∷ 4 ∷ [] }) k'
lock_acquire-refines_example =
    lock_acquire-refines lists_laws 4 other_machine other-IsHealthy 20
      (record { real = ground arith; state = lock; found = refl; other = ground arith })
      (record { quiet = refl; first = 1; others = []; ready = refl }) refl

v_run-refines_example :
    (k' : Kernel) × (v_run 10 machine ≡ ok (tt, k'))
    × Becomes lists_laws machine 10 (record { value = 1; waiting = [] }) k'
v_run-refines_example = v_run-refines lists_laws 4 machine machine-IsHealthy 10 counts

p_start-refines_example :
    (r : Outcome) × (k' : Kernel) × (p_start 10 machine ≡ ok ((15, r), k'))
    × (r ≡ (lower 1 (record { value = 0; waiting = 2 ∷ [] })).0)
    × Becomes lists_laws machine 10 (record { value = 0; waiting = 2 ∷ 1 ∷ [] }) k'
p_start-refines_example =
    p_start-refines lists_laws 4 machine machine-IsHealthy 10 counts may_block refl

-- Thread 1 yields to thread 4.
one_turn : Turns lists_laws 4 machine 1 (yielded machine)
one_turn = yields start (
    thread_yield_lem machine (2 ∷ 3 ∷ []) (alive 0 1 0 (2 ∷ 3 ∷ []) 1 (ground arith) refl)
      (omega arith) refl refl)

Turns-fair_example : (yielded machine).curthread ≡ 4
Turns-fair_example = Turns-fair lists_laws 4 0 4 machine-IsHealthy ([], [], refl, refl) one_turn

plenty : IsPlentiful
plenty = record {
  memory = record {
    blocks = λ log. omega arith;
    strings = λ log s. omega arith;
    arrays = λ log. ([], refl);
  };
  rooms = λ a n. refl;
  slots = λ q n. refl;
}

abbrev may_fork : MayFork lists_laws 4 machine (thread_at 0 1 0 (2 ∷ 3 ∷ []))
may_fork = record {
  plenty = plenty;
  whole = record {
    pid_live = omega arith;
    parent_live = omega arith;
    exit_live = omega arith;
    detached_live = omega arith;
    exited_live = omega arith;
  };
  zombies = [];
  joinable = [];
  children = 2 ∷ 3 ∷ [];
  dead = refl;
  joined = refl;
  family = refl;
  real = (omega arith, (omega arith, tt));
  count = refl;
  fits = omega arith;
  fresh = omega arith;
}
