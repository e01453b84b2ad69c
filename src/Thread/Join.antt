-- ===== src/Thread/Join.antt =====
-- thread_join and thread_detach of thread.c.
use cse4300_project.Prelude.{
  ℕ, zero, suc, ◌+◌, Bool, false, ◌&&◌, Option, none, some, ltb, ◌==◌, if◌then◌else◌,
}
use cse4300_project.Platform.{Ptr, Platform}
use cse4300_project.Kernel.{
  K, Thread, out_of_fuel, fail, pure, ◌>>=◌, ◌>>◌, get, put, live, deref, store, read, write,
  make_runnable, splhigh, splx,
}

-- errno.h
abbrev pub einval : ℕ
einval = 1

abbrev pub enomem : ℕ
enomem = 4

abbrev pub e2big : ℕ
e2big = 25

abbrev pub esrch : ℕ
esrch = 27

abbrev pub edeadlk : ℕ
edeadlk = 29

-- A child that a scan found: its address and its index in `children`.
pub record Child : Type 0 where
  pub at : Ptr
  pub index : ℕ

module _ ⦃os : Platform⦄ where
  abbrev pub current : K Thread
  current = do k ← get; deref k.curthread

  abbrev pub store_current : Thread → K (Unit {0})
  store_current t = do k ← get; store k.curthread t

  -- `*(t1->t_pid) == pid && *(t1->parent) == *(curthread->t_pid)`
  unfoldable pub is_child : Thread → ℕ → K Bool
  is_child t pid = do
    its_pid ← read t.t_pid
    let same_parent = (do
      its_parent ← read t.parent
      cur ← current
      my_pid ← read cur.t_pid
      pure (its_parent == my_pid))
    if its_pid == pid then same_parent else pure false

  -- The first loop: the last child with this pid whose parent is the current thread.
  unfoldable pub find_child : ℕ → ℕ → ℕ → os.Arr → Option Child → K (Option Child)
  find_child zero i pid children found = fail out_of_fuel
  find_child (suc fuel) i pid children found =
      let round = (do
        let p = os.array_getguy children i
        t ← deref p
        mine ← is_child t pid
        find_child fuel (i + 1) pid children
            (if mine then some (record { at = p; index = i }) else found)) in
      if ltb i (os.array_getnum children) then round else pure found

  -- The later loops, over `sleepers`, `zombies` and `joinable`: they keep a `t` that is not NULL.
  -- The result is `t` with the index where it was found, if it was.
  unfoldable pub find_in : ℕ → ℕ → ℕ → os.Arr → Ptr → Option ℕ → K (Ptr × Option ℕ)
  find_in zero i pid a t k = fail out_of_fuel
  find_in (suc fuel) i pid a t k =
      let round = (do
        let p = os.array_getguy a i
        t1 ← deref p
        its_pid ← read t1.t_pid
        let here = its_pid == pid && t == 0
        find_in fuel (i + 1) pid a (if here then p else t) (if here then some i else k)) in
      if ltb i (os.array_getnum a) then round else pure (t, k)

  -- The three loops in a row; the index is that of `joinable`, where `none` is -1.
  unfoldable pub find_anywhere : ℕ → Ptr → K (Ptr × Option ℕ)
  find_anywhere pid t = do
    k ← get
    sleepers ← live k.sleepers
    (t, _) ← find_in (suc (os.array_getnum sleepers)) 0 pid sleepers t none
    zombies ← live k.zombies
    (t, _) ← find_in (suc (os.array_getnum zombies)) 0 pid zombies t none
    joinable ← live k.joinable
    find_in (suc (os.array_getnum joinable)) 0 pid joinable t none

  -- `array_remove(children, j)` on the current thread's children
  unfoldable pub drop_child : ℕ → K (Unit {0})
  drop_child j = do
    cur ← current
    children ← live cur.children
    store_current (record cur { children = some (os.array_remove children j) })

  -- `if (k > 0) array_remove(joinable, k)`
  unfoldable pub drop_joinable : Option ℕ → K (Unit {0})
  drop_joinable none = pure tt
  drop_joinable (some zero) = pure tt
  drop_joinable (some (suc j)) = do
    k ← get
    joinable ← live k.joinable
    put (record k { joinable = some (os.array_remove joinable (suc j)) })

  -- `make_runnable(t)` with interrupts off, its result dropped
  unfoldable pub run_again : Ptr → K (Unit {0})
  run_again p = do spl ← splhigh; _ ← make_runnable p; splx spl

  -- The part of thread_join after the searches, for the thread at `p`. The results are the return
  -- value and what is stored through `status`, if it is not NULL.
  unfoldable pub join_found : Ptr → ℕ → Option ℕ → Bool → K (ℕ × Option ℕ)
  join_found p j index wants_status = do
    t ← deref p
    detached ← read t.is_detached
    let joined = (do
      exited ← read t.has_exited
      if exited == 0 then run_again p else pure tt
      status ←
          (if wants_status
            then (do t ← deref p; code ← read t.t_exit; pure (some code))
            else pure none)
      drop_child j
      drop_joinable index
      pure (0, status))
    if detached == 1 then pure (einval, none) else joined

  unfoldable pub thread_join : ℕ → Bool → K (ℕ × Option ℕ)
  thread_join pid wants_status = do
    cur ← current
    my_pid ← read cur.t_pid
    let search = (do
      children ← live cur.children
      found ← find_child (suc (os.array_getnum children)) 0 pid children none
      elim found [
        | none ↦ pure (einval, none)
        | some c ↦ (do
          (t, index) ← find_anywhere pid c.at
          if t == 0 then pure (esrch, none) else join_found t c.index index wants_status)
      ])
    if my_pid == pid then pure (edeadlk, none) else search

  -- The part of thread_detach after the searches.
  unfoldable pub detach_found : Ptr → ℕ → Option ℕ → K ℕ
  detach_found p j index = do
    t ← deref p
    detached ← read t.is_detached
    let done = (do
      drop_child j
      drop_joinable index
      t ← deref p
      _ ← read t.has_exited
      cell ← write t.is_detached 1
      store p (record t { is_detached = cell })
      pure 0)
    if detached == 1 then pure einval else done

  unfoldable pub thread_detach : ℕ → K ℕ
  thread_detach pid = do
    cur ← current
    children ← live cur.children
    found ← find_child (suc (os.array_getnum children)) 0 pid children none
    elim found [
      | none ↦ pure einval
      | some c ↦ (do
        (t, index) ← find_anywhere pid c.at
        if t == 0 then pure esrch else detach_found t c.index index)
    ]
