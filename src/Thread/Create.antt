-- ===== src/Thread/Create.antt =====
-- thread_create, thread_bootstrap, thread_killall, thread_panic and thread_shutdown of thread.c.
use cse4300_project.Prelude.{none, some, [], Option, ltb, ◌==◌, if◌then◌else◌}
use cse4300_project.Platform.{
  Ptr, Platform, array_create_call, array_destroy_call, scheduler_killall_call,
}
use cse4300_project.Kernel.{
  K, Cell, panicked, fail, pure, ◌>>=◌, ◌>>◌, assert, get, put, live, deref, store, write, kmalloc,
  kstrdup, kfree, record_call,
}

module _ ⦃os : Platform⦄ where
  -- array_create(); `none` is NULL
  unfoldable pub array_create : K (Option os.Arr)
  array_create = do k ← get; record_call array_create_call; pure (os.array_create k.log)

  -- kmalloc(sizeof(int)) for a member; the int is what the memory held.
  unfoldable pub new_cell : K Cell
  new_cell = do b ← kmalloc; pure (record { at = b.at; value = b.content })

  -- The result is the address of the new thread, or NULL. Only the struct's and the name's
  -- allocations are checked.
  unfoldable pub thread_create : Ptr → K Ptr
  unfolding array_create new_cell
  thread_create name = do
    b ← kmalloc
    let fill = (λ (t_name : Ptr). do
      t_pid ← new_cell
      parent ← new_cell
      t_exit ← new_cell
      is_detached ← new_cell
      has_exited ← new_cell
      children ← array_create
      store b.at (record {
        t_name = t_name;
        t_sleepaddr = 0;
        t_stack = 0;
        magic = [];
        t_pid = t_pid;
        parent = parent;
        t_exit = t_exit;
        is_detached = is_detached;
        has_exited = has_exited;
        children = children;
        t_vmspace = 0;
        t_cwd = 0;
      })
      pure b.at)
    let named = (do
      t_name ← kstrdup name
      let unnamed = (do kfree b.at; pure 0)
      if t_name == 0 then unnamed else fill t_name)
    if b.at == 0 then pure 0 else named

  -- `if (x == NULL) panic(...)`
  abbrev or_panic : Option os.Arr → K (Unit {0})
  or_panic none = fail panicked
  or_panic (some a) = pure tt

  -- The name is the address of the string "<boot/menu>".
  unfoldable pub thread_bootstrap : Ptr → K Ptr
  unfolding thread_create
  thread_bootstrap name = do
    sleepers ← array_create
    k ← get
    put (record k { sleepers = sleepers })
    or_panic sleepers
    zombies ← array_create
    k ← get
    put (record k { zombies = zombies })
    or_panic zombies
    joinable ← array_create
    k ← get
    put (record k { joinable = joinable })
    or_panic joinable
    me ← thread_create name
    let started = (do
      k ← get
      put (record k { curthread = me })
      t ← deref me
      pid ← write t.t_pid 1
      parent ← write t.parent 0
      store me (record t { t_pid = pid; parent = parent })
      k ← get
      put (record k { numthreads = 1 })
      pure me)
    if me == 0 then fail panicked else started

  -- The loop of thread_killall only prints: the threads are dropped.
  unfoldable pub thread_killall : K (Unit {0})
  thread_killall = do
    k ← get
    assert (ltb 0 k.curspl)
    sleepers ← live k.sleepers
    let emptied = os.array_setsize sleepers 0
    put (record k { sleepers = some emptied.value })
    assert (emptied.code == 0)

  unfoldable pub thread_panic : K (Unit {0})
  unfolding thread_killall
  thread_panic = do
    k ← get
    assert (ltb 0 k.curspl)
    thread_killall
    k ← get
    put (record k { runqueue = os.scheduler_killall k.runqueue })
    record_call scheduler_killall_call

  unfoldable pub thread_shutdown : K (Unit {0})
  thread_shutdown = do
    record_call array_destroy_call
    record_call array_destroy_call
    record_call array_destroy_call
    k ← get
    put (record k { sleepers = none; zombies = none; joinable = none })
