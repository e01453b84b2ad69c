-- ===== src/Thread/Burial.antt =====
-- What exorcise does, over the list that `zombies` stands for.
use cse4300_project.Prelude.{
  ℕ, zero, suc, ◌+◌, ◌<◌, ◌≡◌, ◌≢◌, refl, ◌∙◌, true, List, [], ◌∷◌, ◌++◌, Option, none, some, arith,
  ltb, ◌==◌, if◌then◌else◌, length,
}
use cse4300_project.Platform.{Ptr, Platform, Laws, Log, kfree_call, array_destroy_call}
use cse4300_project.Platform.Arrays.{at_end, in_range, getguy_here, passed, length-snoc}
use cse4300_project.Kernel.{Kernel, Thread, ok, update}
use cse4300_project.Thread.Switch.{free_thread, thread_destroy, exorcise_loop, exorcise}

module _ ⦃os : Platform⦄ where
  -- The threads once those in the list are destroyed.
  abbrev pub buried : List Ptr → (Ptr → Option Thread) → Ptr → Option Thread
  buried [] threads = threads
  buried (x ∷ xs) threads = buried xs (update threads x none)

  -- The thread at `p` may be destroyed.
  pub record IsDead (threads : Ptr → Option Thread) (cur p : Ptr) : Type 0 where
    pub thread : Thread
    pub other : p ≢ cur
    pub found : threads p ≡ some thread
    pub spaceless : thread.t_vmspace ≡ 0
    pub placeless : thread.t_cwd ≡ 0

  -- The threads in the list may be destroyed one after the other.
  abbrev pub AreDead : (Ptr → Option Thread) → Ptr → List Ptr → Type 0
  AreDead threads cur [] = Unit
  AreDead threads cur (x ∷ xs) = IsDead threads cur x × AreDead (update threads x none) cur xs

  -- The calls of thread_destroy, the latest first: `t_pid` is freed twice.
  abbrev pub destroy_log : Thread → Ptr → Log → Log
  destroy_log t p log =
      kfree_call p
      ∷ kfree_call t.has_exited.at
      ∷ kfree_call t.is_detached.at
      ∷ kfree_call t.t_exit.at
      ∷ array_destroy_call
      ∷ kfree_call t.parent.at
      ∷ kfree_call t.t_pid.at
      ∷ kfree_call t.t_pid.at
      ∷ kfree_call t.t_name
      ∷ (if t.t_stack == 0 then log else kfree_call t.t_stack ∷ log)

  -- Thread_destroy of an allocated thread other than the current one, without address space and
  -- working directory, makes its address dead and gives its stack (if there is one), name,
  -- members, children array and struct back, the member t_pid twice.
  pub thread_destroy_lem :
      (p : Ptr) (k : Kernel) (d : IsDead k.threads k.curthread p)
      → thread_destroy p k
        ≡ ok
            (tt, record k { threads = update k.threads p none; log = destroy_log d.thread p k.log })
  unfolding thread_destroy free_thread
  thread_destroy_lem p k d = ground (arith, d.found, d.other, d.spaceless, d.placeless)

module _ ⦃os : Platform⦄ (laws : Laws os) where
  open laws use {view}

  exorcise_step :
      (fuel i : ℕ) (k k' : Kernel) (a : os.Arr) (x : Ptr)
      → k.zombies ≡ some a
      → ltb i (os.array_getnum a) ≡ true
      → os.array_getguy a i ≡ x
      → x ≢ k.curthread
      → thread_destroy x k ≡ ok (tt, k')
      → exorcise_loop (suc fuel) i k ≡ exorcise_loop fuel (i + 1) k'
  unfolding exorcise_loop
  exorcise_step fuel i k k' a x e more here other run = ground (arith, run)

  -- The kernel once the threads in the list are destroyed.
  abbrev after_burial : Kernel → List Ptr → Log → Kernel
  after_burial k xs log = record k { threads = buried xs k.threads; log = log }

  exorcise_loop-buried :
      (fuel i : ℕ) (k : Kernel) (a : os.Arr) (pre xs : List Ptr)
      → k.zombies ≡ some a
      → i ≡ length pre
      → view a ≡ pre ++ xs
      → AreDead k.threads k.curthread xs
      → length xs < fuel
      → (log : Log) × (exorcise_loop fuel i k ≡ ok (tt, after_burial k xs log))
  unfolding exorcise_loop
  exorcise_loop-buried zero i k a pre xs c j e v h = absurd (omega arith)
  exorcise_loop-buried (suc fuel) i k a pre [] c j e v h =
      (k.log, ground (arith, at_end laws a pre e))
  exorcise_loop-buried (suc fuel) i k a pre (x ∷ xs) c j e (d, v) h =
      let k' : Kernel = record k {
        threads = update k.threads x none;
        log = destroy_log d.thread x k.log;
      } in
      let (log', rest) =
        exorcise_loop-buried fuel (i + 1) k' a (pre ++ x ∷ []) xs c
          (omega (arith, length-snoc pre x)) (passed laws a pre x xs e) v (omega arith) in
      (
        log',
        exorcise_step fuel i k k' a x c (rw j (in_range laws a pre x xs e))
              (rw j (getguy_here laws a pre x xs e)) d.other (thread_destroy_lem x k d)
            ∙ rest,
      )

  -- With interrupts off, and zombies that are, one after the other, allocated threads other than
  -- the current one without address space and working directory, exorcise returns: every zombie is
  -- destroyed, the array of zombies is empty, and nothing else changes but the log of calls.
  pub exorcise-buried :
      (k : Kernel) (a : os.Arr)
      → 0 < k.curspl
      → k.zombies ≡ some a
      → AreDead k.threads k.curthread (view a)
      → (z : os.Arr) × (log : Log) × (exorcise k
          ≡ ok (tt, record k { threads = buried (view a) k.threads; zombies = some z; log = log }))
        × (view z ≡ [])
  unfolding exorcise
  exorcise-buried k a off c v =
      let (log, run) =
        exorcise_loop-buried (suc (os.array_getnum a)) 0 k a [] (view a) c refl refl v
          (omega (arith, laws.getnum-view a)) in
      (
        (os.array_setsize a 0).value,
        log,
        ground (arith, run, laws.setsize_zero a),
        laws.setsize-view a,
      )
