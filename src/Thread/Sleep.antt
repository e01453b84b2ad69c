-- ===== src/Thread/Sleep.antt =====
-- thread_wakeup, thread_wakeone and thread_hassleepers of thread.c: the scans of `sleepers`.
use cse4300_project.Prelude.{ℕ, zero, suc, ◌+◌, some, ltb, ◌==◌, if◌then◌else◌}
use cse4300_project.Platform.{Ptr, Platform}
use cse4300_project.Kernel.{
  K, out_of_fuel, fail, pure, ◌>>=◌, ◌>>◌, assert, get, put, live, deref, make_runnable,
}

module _ ⦃os : Platform⦄ where
  -- The loop of thread_wakeup. `i--` and `i++` cancel where an entry is taken out.
  unfoldable pub wakeup_loop : ℕ → ℕ → Ptr → K (Unit {0})
  wakeup_loop zero i addr = fail out_of_fuel
  wakeup_loop (suc fuel) i addr = do
    k ← get
    sleepers ← live k.sleepers
    if ltb i (os.array_getnum sleepers)
        then (do
          let p = os.array_getguy sleepers i
          t ← deref p
          let removed = (do
            put (record k { sleepers = some (os.array_remove sleepers i) })
            result ← make_runnable p
            assert (result == 0)
            wakeup_loop fuel i addr)
          let kept = wakeup_loop fuel (i + 1) addr
          if t.t_sleepaddr == addr then removed else kept)
        else pure tt

  -- Each round takes an entry out or passes one, so `getnum + 1` rounds are enough.
  unfoldable pub thread_wakeup : Ptr → K (Unit {0})
  thread_wakeup addr = do
    k ← get
    assert (ltb 0 k.curspl)
    sleepers ← live k.sleepers
    wakeup_loop (suc (os.array_getnum sleepers)) 0 addr

  unfoldable pub hassleepers_loop : ℕ → ℕ → Ptr → K ℕ
  hassleepers_loop zero i addr = fail out_of_fuel
  hassleepers_loop (suc fuel) i addr = do
    k ← get
    sleepers ← live k.sleepers
    if ltb i (os.array_getnum sleepers)
        then (do
          t ← deref (os.array_getguy sleepers i)
          let rest = hassleepers_loop fuel (i + 1) addr
          if t.t_sleepaddr == addr then pure 1 else rest)
        else pure 0

  unfoldable pub thread_hassleepers : Ptr → K ℕ
  thread_hassleepers addr = do
    k ← get
    assert (ltb 0 k.curspl)
    sleepers ← live k.sleepers
    hassleepers_loop (suc (os.array_getnum sleepers)) 0 addr

  -- The source reads `i` before it is set: the value found there is the first argument.
  unfoldable pub thread_wakeone : ℕ → Ptr → K (Unit {0})
  thread_wakeone i addr = do
    k ← get
    assert (ltb 0 k.curspl)
    sleepers ← live k.sleepers
    let p = os.array_getguy sleepers i
    t ← deref p
    let woken = (do
      put (record k { sleepers = some (os.array_remove sleepers 0) })
      result ← make_runnable p
      assert (result == 0))
    if t.t_sleepaddr == addr then woken else pure tt
