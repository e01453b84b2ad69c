-- ===== src/Thread/Forking/Complete.antt =====
-- thread_fork of thread.c in a healthy kernel, from its call to its return.
use cse4300_project.Prelude.{ℕ, ◌+◌, ◌≡◌, Bool, true, Option, some}
use cse4300_project.Platform.{Ptr, Platform, Laws, Log}
use cse4300_project.Kernel.{Kernel, Thread, int32, update}
use cse4300_project.Thread.Switch.{has_magic}
use cse4300_project.Thread.Search.{IsWhole}
use cse4300_project.Thread.Population.{IsSound}
use cse4300_project.Thread.Forking.Furnishing.{new_at, furnished, IsAt}
use cse4300_project.Thread.Forking.Reserving.{HasArrays, reserved, roomy}
use cse4300_project.Thread.Forking.Run.{masked, counted}
use cse4300_project.Thread.Forking.Growth.{MayFork}

module _ ⦃os : Platform⦄ (laws : Laws os) (n : ℕ) where
  open laws use {view}

  module _ (k : Kernel) (name : Ptr) (wants_pid : Bool) (h : IsSound laws n k)
      (may : MayFork laws n k h.current.thread) where
    abbrev cur : Thread
    cur = h.current.thread

    abbrev newguy : Ptr
    newguy = new_at k

    abbrev family : os.Arr
    family = roomy may.children (os.array_getnum may.children + 1)

    -- The members of the new thread are `t` when thread_create returns, and it has `stack`.
    module _ (t : Thread) (log : Log) (stack : Ptr) (whole : IsWhole (furnished t stack cur.t_cwd))
        (blank : has_magic t ≡ true) where
      abbrev created : Kernel
      created = record k { threads = update k.threads newguy (some t); log = log }

      -- The struct of the new thread once it is furnished.
      abbrev guy : Thread
      guy = furnished t stack cur.t_cwd

      module _ (log' : Log) (threads : Ptr → Option Thread)
          (at : IsAt created.threads newguy guy threads) where
        abbrev equipped : Kernel
        equipped = record k { threads = threads; log = log' }

        abbrev arrays : HasArrays (masked equipped) cur
        arrays = record {
          sleepers = h.sleepers;
          zombies = may.zombies;
          joinable = may.joinable;
          children = may.children;
          asleep = h.array;
          dead = may.dead;
          joined = may.joined;
          family = may.family;
        }

        abbrev room : Kernel
        room = reserved newguy (int32 (k.numthreads + 1)) (masked equipped) cur arrays

        abbrev final : Kernel
        final = counted (os.splhigh k.curspl).0 room
