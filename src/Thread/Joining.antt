-- ===== src/Thread/Joining.antt =====
-- What thread_join returns, and what it leaves of the kernel.
use cse4300_project.Prelude.{
  ℕ, suc, ◌+◌, ◌≡◌, ◌≢◌, refl, ap, ◌∙◌, Bool, true, false, List, [], ◌∷◌, Option, none, some, arith,
  ◌==◌, if◌then◌else◌, inl, inr, Bool-cases,
}
use cse4300_project.Platform.{Ptr, Platform, Laws}
use cse4300_project.Kernel.{Kernel, Thread, Result, ok, fault, null_pointer, update}
use cse4300_project.Thread.Join.{
  Child, find_child, find_anywhere, join_found, run_again, drop_child, drop_joinable, thread_join,
  einval, edeadlk,
}
use cse4300_project.Thread.Search.{
  IsWhole, AreWhole, is_child_at, last_match, find_child-last_match, find_anywhere-found,
}

module _ ⦃os : Platform⦄ (laws : Laws os) where
  open laws use {view}

  -- The current thread `cur` with the children `ch`, and the global arrays, can be searched.
  pub record CanSearch (k : Kernel) (cur : Thread) (ch s z j : os.Arr) : Type 0 where
    pub running : k.threads k.curthread ≡ some cur
    pub null : k.threads 0 ≡ none
    pub whole : IsWhole cur
    pub children : cur.children ≡ some ch
    pub sleepers : k.sleepers ≡ some s
    pub zombies : k.zombies ≡ some z
    pub joinable : k.joinable ≡ some j
    pub whole_children : AreWhole k.threads (view ch)
    pub whole_sleepers : AreWhole k.threads (view s)
    pub whole_zombies : AreWhole k.threads (view z)
    pub whole_joinable : AreWhole k.threads (view j)

  -- The child that a search for `pid` finds.
  abbrev pub child : Kernel → Thread → os.Arr → ℕ → Option Child
  child k cur ch pid = last_match (is_child_at k.threads cur.t_pid.value pid) 0 (view ch) none

  -- The thread at a child is one of the children.
  abbrev Real : Kernel → Option Child → Type 0
  Real k none = Unit
  Real k (some c) = (t : Thread) × (k.threads c.at ≡ some t) × IsWhole t

  last_match-Real :
      (k : Kernel) (test : Ptr → Bool) (i : ℕ) (xs : List Ptr) (found : Option Child)
      → AreWhole k.threads xs
      → Real k found
      → Real k (last_match test i xs found)
  last_match-Real k test i [] found v r = r
  last_match-Real k test i (x ∷ xs) found v r = elim (Bool-cases (test x)) [
    | inl hit ↦
        rw hit (last_match-Real k test (i + 1) xs (some (record { at = x; index = i })) v.1 v.0)
    | inr miss ↦ rw miss (last_match-Real k test (i + 1) xs found v.1 r)
  ]

  module _ {k : Kernel} {cur : Thread} {ch s z j : os.Arr} (can : CanSearch k cur ch s z j) where
    pub child-Real : (pid : ℕ) (c : Child) → child k cur ch pid ≡ some c → Real k (some c)
    child-Real pid c e = rw e at (
        last_match-Real k (is_child_at k.threads cur.t_pid.value pid) 0 (view ch) none
          can.whole_children tt)

    pub search_child :
        (pid : ℕ)
        → find_child (suc (os.array_getnum ch)) 0 pid ch none k ≡ ok (child k cur ch pid, k)
    search_child pid =
        find_child-last_match laws k cur pid can.running can.whole ch (suc (os.array_getnum ch)) 0
          [] (view ch) none refl refl can.whole_children (omega (arith, laws.getnum-view ch))

    pub search_rest : (pid : ℕ) (p : Ptr) → p ≢ 0 → find_anywhere pid p k ≡ ok ((p, none), k)
    search_rest pid p real =
        find_anywhere-found laws k cur pid can.running can.whole s z j p real can.sleepers
          can.zombies can.joinable can.whole_sleepers can.whole_zombies can.whole_joinable

    pub real-ne-null : (p : Ptr) (t : Thread) → k.threads p ≡ some t → p ≢ 0
    real-ne-null p t e zero_p = cc (can.null, ap k.threads zero_p)

    module _ (pid : ℕ) (wants : Bool) where
      join_own : (cur.t_pid.value == pid) ≡ true → thread_join pid wants k ≡ ok ((edeadlk, none), k)
      unfolding thread_join
      join_own own = ground (arith, can.running, can.whole.pid_live)

      join_stranger :
          (cur.t_pid.value == pid) ≡ false
          → child k cur ch pid ≡ none
          → thread_join pid wants k ≡ ok ((einval, none), k)
      unfolding thread_join
      join_stranger other missing =
          ground (arith, can.running, can.whole.pid_live, can.children, search_child pid)

      join_child :
          (c : Child) (t : Thread)
          → (cur.t_pid.value == pid) ≡ false
          → child k cur ch pid ≡ some c
          → k.threads c.at ≡ some t
          → thread_join pid wants k ≡ join_found c.at c.index none wants k
      unfolding thread_join
      join_child c t other found e = ground (
        arith,
        can.running,
        can.whole.pid_live,
        can.children,
        search_child pid,
        search_rest pid c.at (real-ne-null c.at t e),
      )

    -- The kernel once the child has been joined: it is no longer among the children, and is made
    -- runnable unless it has exited.
    abbrev pub joined : Child → Thread → Kernel
    joined c t = record k {
      threads =
          update k.threads k.curthread
            (some (record cur { children = some (os.array_remove ch c.index) }));
      runqueue =
          if t.has_exited.value == 0 then (os.make_runnable k.runqueue c.at).value else k.runqueue;
    }

    -- What thread_join returns for the child at `c`, the thread `t`.
    abbrev pub join_outcome : Bool → Child → Thread → Result ((ℕ × Option ℕ) × Kernel)
    join_outcome wants c t =
        if t.is_detached.value == 1
        then ok ((einval, none), k)
        else ok ((0, if wants then some t.t_exit.value else none), joined c t)

    join_found_lem :
        (c : Child) (t : Thread) (wants : Bool)
        → k.threads c.at ≡ some t
        → IsWhole t
        → join_found c.at c.index none wants k ≡ join_outcome wants c t
    unfolding join_found run_again drop_child drop_joinable
    join_found_lem c t wants e w = ground (
      arith,
      w.detached_live,
      w.exited_live,
      w.exit_live,
      can.running,
      can.children,
      laws.splhigh_back k.curspl,
      laws.splx_restores (os.splhigh k.curspl).1 k.curspl,
    )

    -- What thread_join returns once the child has been searched for.
    abbrev pub join_expected : Bool → Option Child → Result ((ℕ × Option ℕ) × Kernel)
    join_expected wants none = ok ((einval, none), k)
    join_expected wants (some c) = elim (k.threads c.at) [
      | none ↦ fault null_pointer
      | some t ↦ join_outcome wants c t
    ]

    -- Where all arrays point to threads whose members are allocated, thread_join returns EDEADLK
    -- for the caller's own pid and EINVAL for a pid that is no child's or whose last matching
    -- child is detached. Otherwise it returns 0 with the child's exit code as it stands then,
    -- takes the child off the children, and makes it runnable if it has not exited. It waits for
    -- nothing, and nothing else changes: the child stays in joinable.
    pub thread_join_lem :
        (pid : ℕ) (wants : Bool)
        → thread_join pid wants k ≡ (
            if cur.t_pid.value == pid
            then ok ((edeadlk, none), k)
            else join_expected wants (child k cur ch pid))
    thread_join_lem pid wants = elim (Bool-cases (cur.t_pid.value == pid)) [
      | inl own ↦ rw own (join_own pid wants own)
      | inr other ↦ rw other (by_child other (child k cur ch pid) refl)
    ]
      where
        by_child :
            (cur.t_pid.value == pid) ≡ false
            → (o : Option Child) → child k cur ch pid ≡ o
            → thread_join pid wants k ≡ join_expected wants o
        by_child other none missing = join_stranger pid wants other missing
        by_child other (some c) found =
            let (t, e, w) = child-Real pid c found in
            join_child pid wants c t other found e
            ∙ join_found_lem c t wants e w
            ∙ rw (e, join_expected) refl
