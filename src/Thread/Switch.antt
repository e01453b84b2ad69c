-- ===== src/Thread/Switch.antt =====
-- mi_switch, thread_yield and thread_sleep of thread.c, and the machine's side of a switch: what
-- runs before md_switch, in the old thread, and what runs after it, in the next one.
use cse4300_project.Prelude.{
  ℕ, zero, suc, ◌+◌, Bool, true, false, ◌&&◌, ◌||◌, List, [], ◌∷◌, none, some, ltb, ◌==◌,
  if◌then◌else◌, not,
}
use cse4300_project.Platform.{Ptr, Platform, as_activate_call, array_destroy_call}
use cse4300_project.Kernel.{
  K, Thread, assertion, out_of_fuel, fail, pure, ◌>>=◌, ◌>>◌, assert, get, put, live, deref, store,
  make_runnable, kfree, record_call, splhigh, splx, update,
}

-- threadstate_t
pub data ThreadState : Type 0 where
  s_run s_ready s_sleep s_zomb s_join : ThreadState

abbrev pub same_bytes : List ℕ → List ℕ → Bool
same_bytes [] [] = true
same_bytes (a ∷ as_) (b ∷ bs) = (a == b) && same_bytes as_ bs
same_bytes _ _ = false

-- What thread_fork writes at the bottom of a stack.
abbrev pub magic_bytes : List ℕ
magic_bytes = 0xae ∷ 0x11 ∷ 0xda ∷ 0x33 ∷ []

module _ ⦃os : Platform⦄ where
  abbrev pub has_magic : Thread → Bool
  has_magic t = t.t_stack == 0 || same_bytes t.magic magic_bytes

  -- The struct's block goes back to the allocator, and the address is dead.
  unfoldable pub free_thread : Ptr → K (Unit {0})
  free_thread p = do k ← get; put (record k { threads = update k.threads p none }); kfree p

  -- `t_pid` goes to kfree twice, as in the source.
  unfoldable pub thread_destroy : Ptr → K (Unit {0})
  thread_destroy p = do
    k ← get
    assert (not (p == k.curthread))
    t ← deref p
    assert (t.t_vmspace == 0)
    assert (t.t_cwd == 0)
    if t.t_stack == 0 then pure tt else kfree t.t_stack
    kfree t.t_name
    kfree t.t_pid.at
    kfree t.t_pid.at
    kfree t.parent.at
    record_call array_destroy_call
    kfree t.t_exit.at
    kfree t.is_detached.at
    kfree t.has_exited.at
    free_thread p

  unfoldable pub exorcise_loop : ℕ → ℕ → K (Unit {0})
  exorcise_loop zero i = fail out_of_fuel
  exorcise_loop (suc fuel) i = do
    k ← get
    zombies ← live k.zombies
    let z = os.array_getguy zombies i
    let round = (do assert (not (z == k.curthread)); thread_destroy z; exorcise_loop fuel (i + 1))
    if ltb i (os.array_getnum zombies) then round else pure tt

  unfoldable pub exorcise : K (Unit {0})
  exorcise = do
    k ← get
    assert (ltb 0 k.curspl)
    zombies ← live k.zombies
    exorcise_loop (suc (os.array_getnum zombies)) 0
    k ← get
    zombies ← live k.zombies
    let emptied = os.array_setsize zombies 0
    put (record k { zombies = some emptied.value })
    assert (emptied.code == 0)

  -- The list that the old thread goes on. `s_run` fails the assertion of the last branch.
  unfoldable pub stash : ThreadState → Ptr → K ℕ
  stash s_ready cur = make_runnable cur
  stash s_sleep cur = do
    k ← get
    sleepers ← live k.sleepers
    let added = os.array_add sleepers cur
    put (record k { sleepers = some added.value })
    pure added.code
  stash s_join cur = do
    k ← get
    joinable ← live k.joinable
    let added = os.array_add joinable cur
    put (record k { joinable = some added.value })
    pure added.code
  stash s_zomb cur = do
    k ← get
    zombies ← live k.zombies
    let added = os.array_add zombies cur
    put (record k { zombies = some added.value })
    pure added.code
  stash s_run cur = fail assertion

  -- mi_switch from the saving of `cur` up to md_switch: the next thread becomes current.
  unfoldable pub switch_to_next : ThreadState → Ptr → K (Unit {0})
  switch_to_next nextstate cur = do
    k ← get
    put (record k { curthread = 0 })
    result ← stash nextstate cur
    assert (result == 0)
    k ← get
    let (next, queue) = os.scheduler k.runqueue
    put (record k { curthread = next; runqueue = queue })

  -- mi_switch up to md_switch. Where there is no current thread it returns at once.
  unfoldable pub switch_out : ThreadState → K (Unit {0})
  switch_out nextstate = do
    k ← get
    assert (ltb 0 k.curspl)
    let checked = (do
      t ← deref k.curthread
      assert (has_magic t)
      switch_to_next nextstate k.curthread)
    if k.curthread == 0 then pure tt else checked

  -- mi_switch after md_switch, in the thread that was switched to.
  unfoldable pub switch_in : K (Unit {0})
  switch_in = do
    exorcise
    k ← get
    t ← deref k.curthread
    if t.t_vmspace == 0 then pure tt else record_call (as_activate_call t.t_vmspace)

  -- The whole of mi_switch, in the machine's order, where the next thread has run before.
  unfoldable pub mi_switch : ThreadState → K (Unit {0})
  mi_switch nextstate = do
    k ← get
    switch_out nextstate
    if k.curthread == 0 then pure tt else switch_in

  -- thread_yield up to the switch; the level that its splx restores is handed back.
  unfoldable pub thread_yield : K ℕ
  thread_yield = do
    spl ← splhigh
    k ← get
    elim k.sleepers [ none ↦ fail assertion | some _ ↦ pure tt ]
    switch_out s_ready
    pure spl

  -- The rest of thread_yield, once the thread runs again.
  unfoldable pub thread_yield_resumed : ℕ → K (Unit {0})
  thread_yield_resumed spl = do switch_in; splx spl

  -- thread_sleep up to the switch.
  unfoldable pub thread_sleep : Ptr → K (Unit {0})
  thread_sleep addr = do
    k ← get
    assert (k.in_interrupt == 0)
    t ← deref k.curthread
    store k.curthread (record t { t_sleepaddr = addr })
    switch_out s_sleep

  -- The rest of thread_sleep, once the thread runs again.
  unfoldable pub thread_sleep_resumed : K (Unit {0})
  thread_sleep_resumed = do
    switch_in
    k ← get
    t ← deref k.curthread
    store k.curthread (record t { t_sleepaddr = 0 })
