-- ===== src/Thread/Forking/Preallocation.antt =====
-- The preallocations of thread_fork of thread.c where one fails, and what the label `fail` does.
use cse4300_project.Prelude.{
  ℕ, ◌+◌, ◌≡◌, ◌≢◌, refl, List, [], ◌∷◌, none, some, arith, ◌==◌, if◌then◌else◌, inl, inr,
  Bool-cases,
}
use cse4300_project.Platform.{
  Ptr, Platform, Laws, Log, kfree_call, array_destroy_call, vop_decref_call,
}
use cse4300_project.Kernel.{Kernel, Thread, ok, int32, update}
use cse4300_project.Thread.Switch.{free_thread}
use cse4300_project.Thread.Fork.{
  reserve_and_run, preallocate_children, preallocate_scheduler, fork_fail,
}
use cse4300_project.Thread.Forking.Reserving.{HasArrays, with_room, roomy}

-- The first code that is not 0.
abbrev pub first_failure : List ℕ → ℕ
first_failure [] = 0
first_failure (c ∷ cs) = if c == 0 then first_failure cs else c

module _ ⦃os : Platform⦄ where
  -- The calls of the label `fail` for the thread `t` at `newguy`, the latest first.
  abbrev pub fail_log : Ptr → Thread → Log → Log
  fail_log newguy t log =
      kfree_call newguy
      ∷ kfree_call t.t_exit.at
      ∷ array_destroy_call
      ∷ kfree_call t.has_exited.at
      ∷ kfree_call t.is_detached.at
      ∷ kfree_call t.t_exit.at
      ∷ kfree_call t.has_exited.at
      ∷ kfree_call t.is_detached.at
      ∷ kfree_call t.parent.at
      ∷ kfree_call t.t_pid.at
      ∷ kfree_call t.t_name
      ∷ kfree_call t.t_stack
      ∷ (if t.t_cwd == 0 then log else vop_decref_call t.t_cwd ∷ log)

  pub fork_fail_lem :
      (level newguy : Ptr) (k : Kernel) (t : Thread)
      → k.threads newguy ≡ some t
      → fork_fail level newguy k
        ≡ ok (
          tt,
          record k {
            curspl = os.splx k.curspl level;
            threads = update k.threads newguy none;
            log = fail_log newguy t k.log;
          },
        )
  unfolding fork_fail free_thread
  fork_fail_lem level newguy k t found = ground (arith, found)

  -- The codes of the five preallocations, in order.
  abbrev pub codes : (k : Kernel) (cur : Thread) → HasArrays k cur → List ℕ
  codes k cur h =
      let n = int32 (k.numthreads + 1) in
      (os.array_preallocate h.sleepers n).code
      ∷ (os.array_preallocate h.zombies n).code
      ∷ (os.array_preallocate h.joinable n).code
      ∷ (os.array_preallocate h.children (os.array_getnum h.children + 1)).code
      ∷ (os.scheduler_preallocate k.runqueue n).code
      ∷ []

module _ ⦃os : Platform⦄ (laws : Laws os) where
  open laws use {queued}

  -- What the failed preallocations leave alone.
  pub record Untouched (k k' : Kernel) : Type 0 where
    pub current : k'.curthread ≡ k.curthread
    pub count : k'.numthreads ≡ k.numthreads
    pub level : k'.curspl ≡ k.curspl
    pub log : k'.log ≡ k.log
    pub ready : queued k'.runqueue ≡ queued k.runqueue
    pub others : (q : Ptr) → q ≢ k.curthread → k'.threads q ≡ k.threads q

  module _ (newguy : Ptr) (k : Kernel) (cur : Thread) (h : HasArrays k cur)
      (running : k.threads k.curthread ≡ some cur) where
    abbrev n : ℕ
    n = int32 (k.numthreads + 1)

    -- The kernel after the given arrays have been preallocated.
    abbrev arrays_reserved : os.Arr → os.Arr → os.Arr → Kernel
    arrays_reserved s z j = record k { sleepers = some s; zombies = some z; joinable = some j }

    abbrev family_reserved : Kernel
    family_reserved =
        let k' = arrays_reserved (roomy h.sleepers n) (roomy h.zombies n) (roomy h.joinable n) in
        record k' { threads = update k.threads k.curthread (some (with_room cur h.children)) }

    frame : (s z j : os.Arr) → Untouched k (arrays_reserved s z j)
    frame s z j = record {
      current = refl;
      count = refl;
      level = refl;
      log = refl;
      ready = refl;
      others = λ q apart. refl;
    }

    family_frame :
        (q : os.RunQueue)
        → queued q ≡ queued k.runqueue
        → Untouched k (record family_reserved { runqueue = q })
    family_frame q same = record {
      current = refl;
      count = refl;
      level = refl;
      log = refl;
      ready = same;
      others = λ p apart. ground arith;
    }

    -- A preallocation that fails ends the sequence with its code.
    pub reserve_and_run-fails :
        first_failure (codes k cur h) ≢ 0
        → (k' : Kernel) × (reserve_and_run newguy k ≡ ok (first_failure (codes k cur h), k'))
          × Untouched k k'
    unfolding reserve_and_run preallocate_children preallocate_scheduler
    reserve_and_run-fails bad =
        let c1 = (os.array_preallocate h.sleepers n).code in
        let c2 = (os.array_preallocate h.zombies n).code in
        let c3 = (os.array_preallocate h.joinable n).code in
        let c4 = (os.array_preallocate h.children (os.array_getnum h.children + 1)).code in
        elim (Bool-cases (c1 == 0)) [
          | inr e1 ↦ (
            arrays_reserved (roomy h.sleepers n) h.zombies h.joinable,
            ground (arith, e1, h.asleep, h.dead, h.joined),
            frame _ _ _,
          )
          | inl e1 ↦ elim (Bool-cases (c2 == 0)) [
            | inr e2 ↦ (
              arrays_reserved (roomy h.sleepers n) (roomy h.zombies n) h.joinable,
              ground (arith, e1, e2, h.asleep, h.dead, h.joined),
              frame _ _ _,
            )
            | inl e2 ↦ elim (Bool-cases (c3 == 0)) [
              | inr e3 ↦ (
                arrays_reserved (roomy h.sleepers n) (roomy h.zombies n) (roomy h.joinable n),
                ground (arith, e1, e2, e3, h.asleep, h.dead, h.joined),
                frame _ _ _,
              )
              | inl e3 ↦ elim (Bool-cases (c4 == 0)) [
                | inr e4 ↦ (
                  family_reserved,
                  ground (arith, e1, e2, e3, e4, running, h.asleep, h.dead, h.joined, h.family),
                  family_frame k.runqueue refl,
                )
                | inl e4 ↦ (
                  record family_reserved {
                    runqueue = (os.scheduler_preallocate k.runqueue n).value;
                  },
                  ground
                      (arith, e1, e2, e3, e4, bad, running, h.asleep, h.dead, h.joined, h.family),
                  family_frame _ (laws.scheduler_preallocate-queued k.runqueue n),
                )
              ]
            ]
          ]
        ]
