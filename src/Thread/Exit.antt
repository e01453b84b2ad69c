-- ===== src/Thread/Exit.antt =====
-- thread_exit, mi_threadstart and is_thread_running of thread.c, and _exit.c.
use cse4300_project.Prelude.{ℕ, zero, suc, ◌+◌, ◌-◌, ◌^◌, Bool, not, ltb, ◌==◌, if◌then◌else◌}
use cse4300_project.Platform.{Platform, as_activate_call, as_destroy_call, vop_decref_call}
use cse4300_project.Kernel.{
  K, int32, is_positive, out_of_fuel, fail, pure, ◌>>=◌, ◌>>◌, assert, get, put, live, deref, read,
  write, record_call, splhigh, splx,
}
use cse4300_project.Thread.Switch.{s_zomb, s_join, has_magic, switch_out, switch_in}
use cse4300_project.Thread.Join.{current, store_current, thread_detach}

module _ ⦃os : Platform⦄ where
  -- The loop over the children. `thread_detach` takes entries out while `i` goes on.
  unfoldable pub detach_loop : ℕ → ℕ → K (Unit {0})
  detach_loop zero i = fail out_of_fuel
  detach_loop (suc fuel) i = do
    cur ← current
    children ← live cur.children
    let round = (do
      t ← deref (os.array_getguy children i)
      pid ← read t.t_pid
      _ ← thread_detach pid
      detach_loop fuel (i + 1))
    if ltb i (os.array_getnum children) then round else pure tt

  -- The address space and the working directory are given back.
  unfoldable pub release_resources : K (Unit {0})
  release_resources = do
    cur ← current
    let drop_space = (do
      store_current (record cur { t_vmspace = 0 })
      record_call (as_destroy_call cur.t_vmspace))
    if cur.t_vmspace == 0 then pure tt else drop_space
    cur ← current
    let drop_cwd = (do
      record_call (vop_decref_call cur.t_cwd)
      store_current (record cur { t_cwd = 0 }))
    if cur.t_cwd == 0 then pure tt else drop_cwd

  -- `has_exited = 1; mi_switch(S_ZOMB)`, up to the switch that has no return.
  unfoldable pub exit_finish : K (Unit {0})
  exit_finish = do
    cur ← current
    exited ← write cur.has_exited 1
    store_current (record cur { has_exited = exited })
    switch_out s_zomb

  -- thread_exit up to its first switch.
  unfoldable pub thread_exit : K (Unit {0})
  thread_exit = do
    cur ← current
    assert (has_magic cur)
    _ ← splhigh
    release_resources
    k ← get
    assert (is_positive k.numthreads)
    put (record k { numthreads = int32 (k.numthreads + 2 ^ 32 - 1) })
    cur ← current
    children ← live cur.children
    detach_loop (suc (os.array_getnum children)) 0
    cur ← current
    detached ← read cur.is_detached
    if detached == 0 then switch_out s_join else exit_finish

  -- What follows `mi_switch(S_JOIN)`, once a thread_join has made the thread runnable again.
  unfoldable pub thread_exit_resumed : K (Unit {0})
  thread_exit_resumed = do switch_in; exit_finish

  -- _exit(exitCode)
  unfoldable pub exit_with : ℕ → K (Unit {0})
  exit_with code = do
    cur ← current
    cell ← write cur.t_exit code
    store_current (record cur { t_exit = cell })
    thread_exit

  -- mi_threadstart around `func(data1, data2)`, which is the argument.
  unfoldable pub mi_threadstart : K (Unit {0}) → K (Unit {0})
  mi_threadstart body = do
    cur ← current
    if cur.t_vmspace == 0 then pure tt else record_call (as_activate_call cur.t_vmspace)
    k ← get
    put (record k { curspl = os.spl0 k.curspl })
    body
    thread_exit

  unfoldable pub is_thread_running : K Bool
  is_thread_running = do s ← splhigh; k ← get; let n = k.numthreads; splx s; pure (not (n == 1))
