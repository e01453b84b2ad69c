-- ===== src/Thread/Fork.antt =====
-- thread_fork of thread.c.
use cse4300_project.Prelude.{
  ℕ, zero, suc, ◌+◌, ◌*◌, Bool, none, some, Option, ltb, ◌==◌, if◌then◌else◌,
}
use cse4300_project.Platform.{
  Ptr, Platform, array_destroy_call, vop_incref_call, vop_decref_call, md_initpcb_call,
}
use cse4300_project.Kernel.{
  K, Kernel, Cell, int32, assertion, out_of_fuel, fail, pure, ◌>>=◌, ◌>>◌, get, put, live, deref,
  store, read, write, kmalloc, kfree, record_call, splhigh, splx, make_runnable,
}
use cse4300_project.Thread.Switch.{magic_bytes, free_thread}
use cse4300_project.Thread.Create.{thread_create}
use cse4300_project.Thread.Join.{enomem, current, store_current}

-- `*ret = &pid`: the address of a variable of thread_fork's own, which is gone when thread_fork
-- returns, so that nothing is known of what a caller reads there.
pub data Stored : Type 0 where
  address_of_pid : Stored

module _ ⦃os : Platform⦄ where
  infixr 6 ◌or_fail◌
  -- `result = m; if (result) goto fail;`
  abbrev pub ◌or_fail◌ : K ℕ → K ℕ → K ℕ
  m or_fail rest = do result ← m; if result == 0 then rest else pure result

  -- array_preallocate on one of the three global arrays, given by its getter and setter.
  abbrev preallocate : (Kernel → Option os.Arr) → (os.Arr → Kernel → Kernel) → K ℕ
  preallocate field set_field = do
    k ← get
    a ← live (field k)
    let r = os.array_preallocate a (int32 (k.numthreads + 1))
    put (set_field r.value k)
    pure r.code

  unfoldable pub preallocate_children : K ℕ
  preallocate_children = do
    cur ← current
    children ← live cur.children
    let r = os.array_preallocate children (os.array_getnum children + 1)
    store_current (record cur { children = some r.value })
    pure r.code

  unfoldable pub preallocate_scheduler : K ℕ
  preallocate_scheduler = do
    k ← get
    let r = os.scheduler_preallocate k.runqueue (int32 (k.numthreads + 1))
    put (record k { runqueue = r.value })
    pure r.code

  -- From the first preallocation to the call of make_runnable.
  unfoldable pub reserve_and_run : Ptr → K ℕ
  reserve_and_run newguy =
      preallocate (λ k. k.sleepers) (λ a k. record k { sleepers = some a })
      or_fail preallocate (λ k. k.zombies) (λ a k. record k { zombies = some a })
      or_fail preallocate (λ k. k.joinable) (λ a k. record k { joinable = some a })
      or_fail preallocate_children
      or_fail preallocate_scheduler
      or_fail make_runnable newguy

  -- The first NULL entry of the children, or 0.
  unfoldable pub find_gap : ℕ → ℕ → os.Arr → K ℕ
  find_gap zero i children = fail out_of_fuel
  find_gap (suc fuel) i children =
      let rest = find_gap fuel (i + 1) children in
      if ltb i (os.array_getnum children)
      then (if os.array_getguy children i == 0 then pure i else rest)
      else pure 0

  -- `assert(cell != NULL); *cell = v;`
  abbrev write_member : Cell → ℕ → K Cell
  write_member c v = if c.at == 0 then fail assertion else write c v

  -- `if (ret != NULL)`, up to the store through `ret`.
  unfoldable pub adopt : Ptr → K (Unit {0})
  adopt newguy = do
    cur ← current
    c_pid ← read cur.t_pid
    children ← live cur.children
    next_child ← find_gap (suc (os.array_getnum children)) 0 children
    t ← deref newguy
    is_detached ← write_member t.is_detached 0
    has_exited ← write_member t.has_exited 0
    t_exit ← write_member t.t_exit 0
    let pid = int32 (int32 (c_pid * 2) + next_child)
    t_pid ← write_member t.t_pid pid
    parent ← write_member t.parent c_pid
    store newguy (record t {
      is_detached = is_detached;
      has_exited = has_exited;
      t_exit = t_exit;
      t_pid = t_pid;
      parent = parent;
    })
    cur ← current
    let added = os.array_add children newguy
    store_current (record cur { children = some added.value })

  -- The `else` branch: no pid and no parent are written.
  unfoldable pub disown : Ptr → K (Unit {0})
  disown newguy = do
    t ← deref newguy
    is_detached ← write t.is_detached 0
    has_exited ← write t.has_exited 0
    store newguy (record t { is_detached = is_detached; has_exited = has_exited })

  -- The label `fail`: three members are freed twice, `t_exit` among them.
  unfoldable pub fork_fail : ℕ → Ptr → K (Unit {0})
  fork_fail s newguy = do
    splx s
    t ← deref newguy
    if t.t_cwd == 0 then pure tt else record_call (vop_decref_call t.t_cwd)
    kfree t.t_stack
    kfree t.t_name
    kfree t.t_pid.at
    kfree t.parent.at
    kfree t.is_detached.at
    kfree t.has_exited.at
    kfree t.t_exit.at
    kfree t.is_detached.at
    kfree t.has_exited.at
    record_call array_destroy_call
    kfree t.t_exit.at
    free_thread newguy

  -- Up to `splhigh`: the stack with its magic number, the working directory and the pcb.
  unfoldable pub furnish : Ptr → Ptr → K (Unit {0})
  furnish newguy stack = do
    t ← deref newguy
    store newguy (record t { t_stack = stack; magic = magic_bytes })
    cur ← current
    let inherit = (do
      record_call (vop_incref_call cur.t_cwd)
      t ← deref newguy
      store newguy (record t { t_cwd = cur.t_cwd }))
    if cur.t_cwd == 0 then pure tt else inherit
    record_call (md_initpcb_call newguy)

  -- The results are the error code and the pointer that is stored through `ret`, where the caller
  -- gave one.
  unfoldable pub thread_fork : Ptr → Bool → K (ℕ × Option Stored)
  thread_fork name wants_pid = do
    newguy ← thread_create name
    let proceed = (do
      s ← splhigh
      result ← reserve_and_run newguy
      let failed = (do fork_fail s newguy; pure (result, none))
      let forked = (do
        k ← get
        put (record k { numthreads = int32 (k.numthreads + 1) })
        splx s
        let adopted = (do adopt newguy; pure (0, some address_of_pid))
        let disowned = (do disown newguy; pure (0, none))
        if wants_pid then adopted else disowned)
      if result == 0 then forked else failed)
    let with_struct = (do
      stack ← kmalloc
      let no_stack = (do t ← deref newguy; kfree t.t_name; free_thread newguy; pure (enomem, none))
      let with_stack = (do furnish newguy stack.at; proceed)
      if stack.at == 0 then no_stack else with_stack)
    if newguy == 0 then pure (enomem, none) else with_struct
