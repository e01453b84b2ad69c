-- ===== src/Tests/Families.antt =====
-- Joining and detaching the children of the concrete kernel's thread.
use cse4300_project.Prelude.{
  ℕ, ◌+◌, ◌≡◌, ◌≢◌, length, refl, arith, true, List, [], ◌∷◌, Option, some,
}
use cse4300_project.Platform.{Ptr}
use cse4300_project.Kernel.{Kernel, Thread, ok, update}
use cse4300_project.Thread.Join.{Child, thread_join, thread_detach}
use cse4300_project.Thread.Search.{IsWhole}
use cse4300_project.Thread.Joining.{CanSearch, joined, thread_join_lem}
use cse4300_project.Thread.Detaching.{detached, thread_detach_lem}
use cse4300_project.Thread.Exit.{thread_exit}
use cse4300_project.Thread.Switch.{has_magic}
use cse4300_project.Thread.Population.{occurrences, IsAlive, IsHealthy}
use cse4300_project.Thread.Attached.{IsDistinct}
use cse4300_project.Thread.Halving.{IsAttached, AreAttached}
use cse4300_project.Thread.Halving.Whole.{MayExit, exited, thread_exit_lem}
use cse4300_project.Thread.Halving.Leaving.{Loses, thread_exit-Loses}
use cse4300_project.Tests.Lists.{lists, lists_laws, machine, thread_at}

abbrev parent_thread : Thread
parent_thread = thread_at 0 1 0 (2 ∷ 3 ∷ [])

abbrev second_child : Thread
second_child = thread_at 20 2 1 []

thread_at-IsWhole :
    (addr : Ptr) (pid parent : ℕ) (children : List Ptr)
    → IsWhole (thread_at addr pid parent children)
thread_at-IsWhole addr pid parent children = record {
  pid_live = ground arith;
  parent_live = ground arith;
  exit_live = ground arith;
  detached_live = ground arith;
  exited_live = ground arith;
}

can_search : CanSearch lists_laws machine parent_thread (2 ∷ 3 ∷ []) (2 ∷ 3 ∷ []) [] []
can_search = record {
  running = refl;
  null = refl;
  whole = thread_at-IsWhole 0 1 0 _;
  children = refl;
  sleepers = refl;
  zombies = refl;
  joinable = refl;
  whole_children =
      ((_, refl, thread_at-IsWhole 10 2 1 []), ((_, refl, thread_at-IsWhole 20 2 1 []), tt));
  whole_sleepers =
      ((_, refl, thread_at-IsWhole 10 2 1 []), ((_, refl, thread_at-IsWhole 20 2 1 []), tt));
  whole_zombies = tt;
  whole_joinable = tt;
}

-- Both children have the pid 2; the search finds the later one.
abbrev found_child : Child
found_child = record { at = 3; index = 1 }

thread_join_lem_example :
    thread_join 2 true machine
    ≡ ok ((0, some 42), joined lists_laws can_search found_child second_child)
thread_join_lem_example = thread_join_lem lists_laws can_search 2 true

thread_detach_lem_example :
    thread_detach 2 machine ≡ ok (0, detached lists_laws can_search found_child second_child)
thread_detach_lem_example = thread_detach_lem lists_laws can_search 2 (λ c e. ground arith)

children-IsDistinct : IsDistinct (2 ∷ 3 ∷ [])
children-IsDistinct p = ground arith

attached_child :
    {threads : Ptr → Option Thread} (addr p : Ptr)
    → p ≢ 1
    → threads p ≡ some (thread_at addr 2 1 [])
    → IsAttached threads 1 1 p
attached_child addr p apart found = record {
  thread = thread_at addr 2 1 [];
  found = found;
  whole = thread_at-IsWhole addr 2 1 [];
  flag = refl;
  of_parent = refl;
  apart = apart;
}

children-AreAttached : AreAttached machine.threads 1 1 (2 ∷ 3 ∷ [])
children-AreAttached =
    (attached_child 10 2 (ground arith) refl, (attached_child 20 3 (ground arith) refl, tt))

-- Thread 1 with an address space and a working directory.
abbrev user_thread : Thread
user_thread = record parent_thread { t_vmspace = 100; t_cwd = 200 }

abbrev user_machine : Kernel
user_machine = record machine { threads = update machine.threads 1 (some user_thread) }

user_thread-IsWhole : IsWhole user_thread
user_thread-IsWhole = record {
  pid_live = ground arith;
  parent_live = ground arith;
  exit_live = ground arith;
  detached_live = ground arith;
  exited_live = ground arith;
}

user_can_search : CanSearch lists_laws user_machine user_thread (2 ∷ 3 ∷ []) (2 ∷ 3 ∷ []) [] []
user_can_search = record {
  running = refl;
  null = refl;
  whole = user_thread-IsWhole;
  children = refl;
  sleepers = refl;
  zombies = refl;
  joinable = refl;
  whole_children =
      ((_, refl, thread_at-IsWhole 10 2 1 []), ((_, refl, thread_at-IsWhole 20 2 1 []), tt));
  whole_sleepers =
      ((_, refl, thread_at-IsWhole 10 2 1 []), ((_, refl, thread_at-IsWhole 20 2 1 []), tt));
  whole_zombies = tt;
  whole_joinable = tt;
}

user_children-AreAttached : AreAttached user_machine.threads 1 1 (2 ∷ 3 ∷ [])
user_children-AreAttached =
    (attached_child 10 2 (ground arith) refl, (attached_child 20 3 (ground arith) refl, tt))

may_exit : MayExit lists_laws user_can_search
may_exit = record { real = ground arith; magic = refl; counted = refl; joins = refl; zombie = refl }

-- Thread 1 exits with the two children 2 and 3: one of them is detached.
thread_exit_lem_example :
    (a gone : List Ptr) × (thread_exit user_machine
      ≡ ok (tt, exited lists_laws user_can_search a gone))
    × (length a ≡ 1)
    × ((p : Ptr) → occurrences p a + occurrences p gone ≡ occurrences p (2 ∷ 3 ∷ []))
thread_exit_lem_example =
    thread_exit_lem lists_laws user_can_search may_exit user_children-AreAttached
      children-IsDistinct

user_alive :
    (p : Ptr) (t : Thread)
    → p ≢ 0
    → user_machine.threads p ≡ some t
    → has_magic t ≡ true
    → IsAlive user_machine.threads p
user_alive p t real found magic = record { real = real; thread = t; found = found; magic = magic }

user_machine-IsHealthy : IsHealthy lists_laws 4 user_machine
user_machine-IsHealthy = record {
  sleepers = 2 ∷ 3 ∷ [];
  array = refl;
  current = user_alive 1 user_thread (ground arith) refl refl;
  ready = (user_alive 4 (thread_at 0 4 0 []) (ground arith) refl refl, tt);
  asleep = (
    user_alive 2 (thread_at 10 2 1 []) (ground arith) refl refl,
    (user_alive 3 second_child (ground arith) refl refl, tt),
  );
  room = tt;
  slots = tt;
  fits = omega arith;
}

-- Thread 4 runs next.
thread_exit-Loses_example :
    (k' : Kernel) × (thread_exit user_machine ≡ ok (tt, k')) × Loses lists_laws 4 user_machine k' 4
thread_exit-Loses_example =
    thread_exit-Loses lists_laws 4 user_can_search may_exit user_children-AreAttached
      children-IsDistinct 4 [] user_machine-IsHealthy refl
