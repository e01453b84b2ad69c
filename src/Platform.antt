-- ===== src/Platform.antt =====
-- What thread.c, synch.c, menu.c and main.c call and this repository does not hold: the kernel's arrays
-- (array.h), the scheduler (scheduler.h), the allocator and the interrupt level (machine/spl.h).
-- They are the fields of a record; `Laws` states the documented behaviour that the code relies on.
pub mod Arrays
use cse4300_project.Prelude.{
  ℕ, zero, suc, ◌+◌, ◌-◌, ◌≤◌, ◌<◌, ◌≡◌, List, [], ◌∷◌, ◌++◌, Option, none, some, length, get_elem?,
}

-- An address; 0 is NULL.
abbrev pub Ptr : Type 0
Ptr = ℕ

-- Calls into the rest of the kernel, in the order they are made.
pub data Event : Type 0 where
  kmalloc_call : Event
  kstrdup_call : Ptr → Event
  kfree_call : Ptr → Event
  array_create_call : Event
  array_destroy_call : Event
  as_activate_call : Ptr → Event
  as_destroy_call : Ptr → Event
  vop_incref_call : Ptr → Event
  vop_decref_call : Ptr → Event
  md_initpcb_call : Ptr → Event
  scheduler_killall_call : Event
  ram_bootstrap_call scheduler_bootstrap_call vfs_bootstrap_call dev_bootstrap_call : Event
  vm_bootstrap_call kprintf_bootstrap_call vfs_setbootfs_call : Event
  vfs_clearbootfs_call vfs_clearcurdir_call vfs_unmountall_call scheduler_shutdown_call : Event
  vfs_sync_call clocksleep_call md_halt_call md_reboot_call md_poweroff_call : Event

-- The latest call stands first.
abbrev pub Log : Type 0
Log = List Event

-- A block that kmalloc returns, with what the memory held before.
pub record Block : Type 0 where
  pub at : Ptr
  pub content : ℕ

-- An operation that returns an error code (0 is success) with the new value.
pub record Coded (A : Type 0) : Type 0 where
  pub code : ℕ
  pub value : A

pub record Platform : Type 1 where
  pub Arr : Type 0
  pub RunQueue : Type 0
  pub array_create : Log → Option Arr
  pub array_getnum : Arr → ℕ
  pub array_getguy : Arr → ℕ → Ptr
  pub array_add : Arr → Ptr → Coded Arr
  pub array_remove : Arr → ℕ → Arr
  pub array_setsize : Arr → ℕ → Coded Arr
  pub array_preallocate : Arr → ℕ → Coded Arr
  pub make_runnable : RunQueue → Ptr → Coded RunQueue
  pub scheduler : RunQueue → Ptr × RunQueue
  pub scheduler_preallocate : RunQueue → ℕ → Coded RunQueue
  pub scheduler_killall : RunQueue → RunQueue
  -- the allocator's answers depend on the calls made so far in any way
  pub kmalloc : Log → Block
  pub kstrdup : Log → Ptr → Ptr
  -- from the current level: the level handed back, and the new current level
  pub splhigh : ℕ → ℕ × ℕ
  -- from the current level and the argument: the new level
  pub splx : ℕ → ℕ → ℕ
  pub spl0 : ℕ → ℕ

-- The entry at an index taken out, the later ones moved down.
abbrev pub remove_at {ℓ} : {A : Type ℓ} → List A → ℕ → List A
remove_at [] i = []
remove_at (x ∷ xs) zero = xs
remove_at (x ∷ xs) (suc i) = x ∷ remove_at xs i

-- An array is the list of its entries, an append succeeds where room was set aside, and the run
-- queue holds the threads that were made runnable, oldest first.
pub record Laws (os : Platform) : Type 1 where
  pub view : os.Arr → List Ptr
  pub HasRoom : os.Arr → ℕ → Type 0
  pub getnum-view : (a : os.Arr) → os.array_getnum a ≡ length (view a)
  pub getguy-view :
      (a : os.Arr) (i : ℕ) → i < length (view a) → get_elem? (view a) i ≡ some (os.array_getguy a i)
  pub add-view :
      (a : os.Arr) (p : Ptr)
      → (os.array_add a p).code ≡ 0
      → view (os.array_add a p).value ≡ view a ++ p ∷ []
  pub add-HasRoom :
      (a : os.Arr) (p : Ptr) (n : ℕ)
      → HasRoom a n
      → length (view a) < n
      → ((os.array_add a p).code ≡ 0) × HasRoom (os.array_add a p).value n
  pub remove-HasRoom :
      (a : os.Arr) (i n : ℕ) → HasRoom a n → i < length (view a) → HasRoom (os.array_remove a i) n
  pub remove-view :
      (a : os.Arr) (i : ℕ) → i < length (view a) → view (os.array_remove a i) ≡ remove_at (view a) i
  pub setsize_zero : (a : os.Arr) → (os.array_setsize a 0).code ≡ 0
  pub setsize-view : (a : os.Arr) → view (os.array_setsize a 0).value ≡ []
  pub create-view : (log : Log) (a : os.Arr) → os.array_create log ≡ some a → view a ≡ []
  pub preallocate-view : (a : os.Arr) (n : ℕ) → view (os.array_preallocate a n).value ≡ view a
  pub preallocate-HasRoom :
      (a : os.Arr) (n : ℕ)
      → (os.array_preallocate a n).code ≡ 0
      → HasRoom (os.array_preallocate a n).value n
  pub queued : os.RunQueue → List Ptr
  pub HasSlots : os.RunQueue → ℕ → Type 0
  pub make_runnable-queued :
      (q : os.RunQueue) (p : Ptr)
      → (os.make_runnable q p).code ≡ 0
      → queued (os.make_runnable q p).value ≡ queued q ++ p ∷ []
  pub make_runnable-HasSlots :
      (q : os.RunQueue) (p : Ptr) (n : ℕ)
      → HasSlots q n
      → length (queued q) < n
      → ((os.make_runnable q p).code ≡ 0) × HasSlots (os.make_runnable q p).value n
  pub scheduler-queued :
      (q : os.RunQueue) (p : Ptr) (ps : List Ptr)
      → queued q ≡ p ∷ ps
      → ((os.scheduler q).0 ≡ p) × (queued (os.scheduler q).1 ≡ ps)
  pub scheduler-HasSlots : (q : os.RunQueue) (n : ℕ) → HasSlots q n → HasSlots (os.scheduler q).1 n
  pub scheduler_preallocate-queued :
      (q : os.RunQueue) (n : ℕ) → queued (os.scheduler_preallocate q n).value ≡ queued q
  pub scheduler_preallocate-HasSlots :
      (q : os.RunQueue) (n : ℕ)
      → (os.scheduler_preallocate q n).code ≡ 0
      → HasSlots (os.scheduler_preallocate q n).value n
  pub splhigh_back : (s : ℕ) → (os.splhigh s).0 ≡ s
  pub splhigh_pos : (s : ℕ) → 0 < (os.splhigh s).1
  pub splx_restores : (s old : ℕ) → os.splx s old ≡ old
