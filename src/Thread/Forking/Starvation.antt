-- ===== src/Thread/Forking/Starvation.antt =====
-- thread_fork of thread.c where kmalloc or kstrdup fails.
use cse4300_project.Prelude.{
  ◌≡◌, ◌≢◌, refl, arith, Bool, true, ◌||◌, ◌∷◌, Option, none, some, ◌==◌, if◌then◌else◌, inl, inr,
  Bool-cases,
}
use cse4300_project.Platform.{Ptr, Platform, Log, kmalloc_call, kstrdup_call, kfree_call}
use cse4300_project.Kernel.{Kernel, Thread, ok, update}
use cse4300_project.Thread.Create.{thread_create, array_create, new_cell}
use cse4300_project.Thread.Switch.{free_thread}
use cse4300_project.Thread.Join.{enomem}
use cse4300_project.Thread.Fork.{thread_fork}
use cse4300_project.Thread.Forking.Furnishing.{new_at, new_struct, named, created_log}

module _ ⦃os : Platform⦄ (name : Ptr) (k : Kernel) where
  abbrev pub name_at : Ptr
  name_at = os.kstrdup (kmalloc_call ∷ k.log) name

  abbrev pub stack_at : Ptr
  stack_at = (os.kmalloc (created_log name k.log)).at

  -- The struct, its name or its stack is not allocated.
  abbrev pub starves : Bool
  starves = new_at k == 0 || (name_at == 0 || stack_at == 0)

  -- The calls that are made, the latest first.
  abbrev pub starved_log : Log
  starved_log =
      if new_at k == 0
      then kmalloc_call ∷ k.log
      else if name_at == 0
      then kfree_call (new_at k) ∷ kstrdup_call name ∷ kmalloc_call ∷ k.log
      else kfree_call (new_at k) ∷ kfree_call name_at ∷ kmalloc_call ∷ created_log name k.log

  -- The log when array_create is called for the children.
  abbrev before_array : Log
  before_array =
      kmalloc_call ∷ kmalloc_call ∷ kmalloc_call ∷ kmalloc_call ∷ kmalloc_call ∷ named name k.log

  -- Where the struct of the new thread, its name or its stack is not allocated, thread_fork
  -- returns ENOMEM and no pointer; no thread changes but the one at the new address, and nothing
  -- else changes but the log of calls. Where the stack is what fails, the name and the struct are
  -- freed, and the five int members and the array of children are not.
  pub thread_fork-starves :
      (wants_pid : Bool)
      → starves ≡ true
      → (threads : Ptr → Option Thread) × (thread_fork name wants_pid k
          ≡ ok ((enomem, none), record k { threads = threads; log = starved_log }))
        × ((q : Ptr) → q ≢ new_at k → threads q ≡ k.threads q)
  unfolding thread_fork thread_create array_create new_cell free_thread
  thread_fork-starves wants_pid starved = elim (Bool-cases (new_at k == 0)) [
    | inl e ↦ (k.threads, ground (arith, e), λ q apart. refl)
    | inr e ↦ elim (Bool-cases (name_at == 0)) [
      | inl e' ↦ (k.threads, ground (arith, e, e'), λ q apart. refl)
      | inr e' ↦ (
        update
            (update k.threads (new_at k)
              (some (new_struct name k.log (os.array_create before_array))))
            (new_at k) none,
        ground (arith, e, e', starved),
        λ q apart. ground (arith, apart),
      )
    ]
  ]
