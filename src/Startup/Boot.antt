-- ===== src/Startup/Boot.antt =====
-- The kernel that boot of project_2/partC.c leaves, while memory lasts.
use cse4300_project.Prelude.{◌≡◌, ◌≢◌, refl, ap, arith, length, [], ◌∷◌, some}
use cse4300_project.Platform.{
  Ptr, Platform, Laws, Log, kmalloc_call, kstrdup_call, array_create_call, ram_bootstrap_call,
  scheduler_bootstrap_call, vfs_bootstrap_call, dev_bootstrap_call, vm_bootstrap_call,
  kprintf_bootstrap_call, vfs_setbootfs_call,
}
use cse4300_project.Kernel.{Kernel, Thread, ok, update}
use cse4300_project.Thread.Create.{thread_create, thread_bootstrap, array_create}
use cse4300_project.Thread.Population.{IsSound}
use cse4300_project.Thread.Forking.Furnishing.{
  HasMemory, IsPlentiful, new_thread, new_at, created_log, thread_create_lem,
}
use cse4300_project.Thread.Search.{IsWhole}
use cse4300_project.Thread.Forking.Growth.{MayFork}
use cse4300_project.Startup.{boot}

module _ ⦃os : Platform⦄ where
  -- The kernel once the three arrays are there.
  abbrev pub with_arrays : Kernel → os.Arr → os.Arr → os.Arr → Kernel
  with_arrays k s z j = record k {
    sleepers = some s;
    zombies = some z;
    joinable = some j;
    log = array_create_call ∷ array_create_call ∷ array_create_call ∷ k.log;
  }

  -- The first thread: pid 1, and no parent.
  abbrev pub first_thread : Thread → Thread
  first_thread t = record t {
    t_pid = record t.t_pid { value = 1 };
    parent = record t.parent { value = 0 };
  }

  abbrev pub bootstrapped : Kernel → Ptr → Thread → Log → Kernel
  bootstrapped k me t log = record k {
    curthread = me;
    threads = update (update k.threads me (some t)) me (some (first_thread t));
    numthreads = 1;
    log = log;
  }

  thread_bootstrap_lem :
      (memory : HasMemory) (name : Ptr) (k : Kernel) (s z j a : os.Arr)
      → os.array_create k.log ≡ some s
      → os.array_create (array_create_call ∷ k.log) ≡ some z
      → os.array_create (array_create_call ∷ array_create_call ∷ k.log) ≡ some j
      → (let k1 = with_arrays k s z j in
          thread_create name k1
            ≡ ok (
              new_at k1,
              record k1 {
                threads = update k1.threads (new_at k1) (some (new_thread name k1.log a));
                log = created_log name k1.log;
              },
            )
          → thread_bootstrap name k
            ≡ ok (
              new_at k1,
              bootstrapped k1 (new_at k1) (new_thread name k1.log a) (created_log name k1.log),
            ))
  unfolding thread_bootstrap array_create
  thread_bootstrap_lem memory name k s z j a e1 e2 e3 created =
      let log = array_create_call ∷ array_create_call ∷ array_create_call ∷ k.log in
      let members = kstrdup_call name ∷ kmalloc_call ∷ log in
      ground (
        arith,
        e1,
        e2,
        e3,
        created,
        memory.blocks log,
        memory.blocks members,
        memory.blocks (kmalloc_call ∷ members),
      )

  -- The kernel when boot calls thread_bootstrap, and when it returns.
  abbrev pub starting : Kernel → Kernel
  starting k = record k { log = scheduler_bootstrap_call ∷ ram_bootstrap_call ∷ k.log }

  abbrev pub started : Kernel → Kernel
  started k = record k {
    log =
        vfs_setbootfs_call ∷ kprintf_bootstrap_call ∷ vm_bootstrap_call ∷ dev_bootstrap_call
        ∷ vfs_bootstrap_call ∷ k.log;
  }

  boot_run :
      (name me : Ptr) (k k' : Kernel)
      → thread_bootstrap name (starting k) ≡ ok (me, k')
      → boot name k ≡ ok (tt, started k')
  unfolding boot
  boot_run name me k k' run = ground (arith, run)

module _ ⦃os : Platform⦄ (laws : Laws os) where
  open laws use {view, queued}

  -- One thread with pid 1 runs, and nobody else is there.
  pub record Boots (k' : Kernel) : Type 0 where
    pub sound : IsSound laws 1 k'
    pub whole : IsWhole sound.current.thread
    pub pid : sound.current.thread.t_pid.value ≡ 1
    pub count : k'.numthreads ≡ 1
    pub alone : view sound.sleepers ≡ []
    pub zombies : os.Arr
    pub joinable : os.Arr
    pub children : os.Arr
    pub dead : k'.zombies ≡ some zombies
    pub joined : k'.joinable ≡ some joinable
    pub family : sound.current.thread.children ≡ some children
    pub empty : (view zombies ≡ []) × (view joinable ≡ []) × (view children ≡ [])

  bootstrapped-Boots :
      (memory : HasMemory) (name : Ptr) (k : Kernel) (s z j a : os.Arr)
      (log log' logs logz logj loga : Log)
      → queued k.runqueue ≡ []
      → os.array_create logs ≡ some s
      → os.array_create logz ≡ some z
      → os.array_create logj ≡ some j
      → os.array_create loga ≡ some a
      → Boots (
          started (
            bootstrapped
              (with_arrays k s z j)
              (new_at (with_arrays k s z j))
              (new_thread name log a)
              log'))
  bootstrapped-Boots memory name k s z j a log log' logs logz logj loga idle e1 e2 e3 e4 =
      let none_asleep = laws.create-view logs s e1 in
      record {
        sound = record {
          sleepers = s;
          array = refl;
          current = record {
            real = memory.blocks _;
            thread = first_thread (new_thread name log a);
            found = ground arith;
            magic = refl;
          };
          ready = rw idle tt;
          asleep = rw none_asleep tt;
          fits = omega (arith, ap length idle, ap length none_asleep);
        };
        whole = record {
          pid_live = memory.blocks _;
          parent_live = memory.blocks _;
          exit_live = memory.blocks _;
          detached_live = memory.blocks _;
          exited_live = memory.blocks _;
        };
        pid = refl;
        count = refl;
        alone = none_asleep;
        zombies = z;
        joinable = j;
        children = a;
        dead = refl;
        joined = refl;
        family = refl;
        empty =
            (laws.create-view logz z e2, laws.create-view logj j e3, laws.create-view loga a e4);
      }

  -- While memory lasts and nobody is in the run queue, boot returns with one thread, which is
  -- current, has pid 1 and all its members and is counted; nobody sleeps, and the arrays of
  -- zombies, of joinable threads and of the children are there and empty.
  pub boot-Boots :
      (memory : HasMemory) (name : Ptr) (k : Kernel)
      → queued k.runqueue ≡ []
      → (k' : Kernel) × (boot name k ≡ ok (tt, k')) × Boots k'
  boot-Boots memory name k idle =
      let k0 = starting k in
      let (s, e1) = memory.arrays k0.log in
      let (z, e2) = memory.arrays (array_create_call ∷ k0.log) in
      let (j, e3) = memory.arrays (array_create_call ∷ array_create_call ∷ k0.log) in
      let k1 = with_arrays k0 s z j in
      let (a, e4) = memory.arrays _ in
      let run =
        thread_bootstrap_lem memory name k0 s z j a e1 e2 e3
          (thread_create_lem memory name k1 a e4) in
      (
        _,
        boot_run name (new_at k1) k _ run,
        bootstrapped-Boots memory name k0 s z j a k1.log _ _ _ _ _ idle e1 e2 e3 e4,
      )

  -- What a first thread_fork asks for.
  pub Boots-MayFork :
      (k' : Kernel) (b : Boots k')
      → IsPlentiful
      → new_at k' ≢ k'.curthread
      → MayFork laws 1 k' b.sound.current.thread
  Boots-MayFork k' b plenty fresh = record {
    plenty = plenty;
    whole = b.whole;
    zombies = b.zombies;
    joinable = b.joinable;
    children = b.children;
    dead = b.dead;
    joined = b.joined;
    family = b.family;
    real = rw (b.empty.2) tt;
    count = b.count;
    fits = omega arith;
    fresh = fresh;
  }
