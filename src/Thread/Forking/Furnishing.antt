-- ===== src/Thread/Forking/Furnishing.antt =====
-- thread_create of thread.c and the members that thread_fork fills in, while memory lasts.
use cse4300_project.Prelude.{
  ℕ, ◌≡◌, ◌≢◌, [], ◌∷◌, Option, some, arith, ◌==◌, if◌then◌else◌, inl, inr, Bool-cases,
}
use cse4300_project.Platform.{
  Ptr, Platform, Log, kmalloc_call, kstrdup_call, array_create_call, vop_incref_call,
  md_initpcb_call,
}
use cse4300_project.Kernel.{Kernel, Thread, Cell, ok, update}
use cse4300_project.Thread.Switch.{magic_bytes}
use cse4300_project.Thread.Create.{thread_create, array_create, new_cell}
use cse4300_project.Thread.Fork.{furnish}

module _ ⦃os : Platform⦄ where
  -- The allocator never answers NULL.
  pub record HasMemory : Type 0 where
    pub blocks : (log : Log) → (os.kmalloc log).at ≢ 0
    pub strings : (log : Log) (s : Ptr) → os.kstrdup log s ≢ 0
    pub arrays : (log : Log) → (a : os.Arr) × (os.array_create log ≡ some a)

  -- Nor does a preallocation fail.
  pub record IsPlentiful : Type 0 where
    pub memory : HasMemory
    pub rooms : (a : os.Arr) (n : ℕ) → (os.array_preallocate a n).code ≡ 0
    pub slots : (q : os.RunQueue) (n : ℕ) → (os.scheduler_preallocate q n).code ≡ 0

  -- A block for an int.
  abbrev cell : Log → Cell
  cell log = let b = os.kmalloc log in record { at = b.at; value = b.content }

  -- The log before the members of a new thread are allocated.
  abbrev pub named : Ptr → Log → Log
  named name log = kstrdup_call name ∷ kmalloc_call ∷ log

  abbrev pub created_log : Ptr → Log → Log
  created_log name log =
      array_create_call
      ∷ kmalloc_call
      ∷ kmalloc_call
      ∷ kmalloc_call
      ∷ kmalloc_call
      ∷ kmalloc_call
      ∷ named name log

  -- The struct that thread_create fills.
  abbrev pub new_struct : Ptr → Log → Option os.Arr → Thread
  new_struct name log children =
      let l = named name log in
      record {
        t_name = os.kstrdup (kmalloc_call ∷ log) name;
        t_sleepaddr = 0;
        t_stack = 0;
        magic = [];
        t_pid = cell l;
        parent = cell (kmalloc_call ∷ l);
        t_exit = cell (kmalloc_call ∷ kmalloc_call ∷ l);
        is_detached = cell (kmalloc_call ∷ kmalloc_call ∷ kmalloc_call ∷ l);
        has_exited = cell (kmalloc_call ∷ kmalloc_call ∷ kmalloc_call ∷ kmalloc_call ∷ l);
        children = children;
        t_vmspace = 0;
        t_cwd = 0;
      }

  abbrev pub new_thread : Ptr → Log → os.Arr → Thread
  new_thread name log a = new_struct name log (some a)

  -- The address of the struct.
  abbrev pub new_at : Kernel → Ptr
  new_at k = (os.kmalloc k.log).at

  pub thread_create_lem :
      (memory : HasMemory) (name : Ptr) (k : Kernel) (a : os.Arr)
      → os.array_create (
          kmalloc_call
          ∷ kmalloc_call
          ∷ kmalloc_call
          ∷ kmalloc_call
          ∷ kmalloc_call
          ∷ named name k.log)
        ≡ some a
      → thread_create name k
        ≡ ok (
          new_at k,
          record k {
            threads = update k.threads (new_at k) (some (new_thread name k.log a));
            log = created_log name k.log;
          },
        )
  unfolding thread_create array_create new_cell
  thread_create_lem memory name k a e =
      ground (arith, memory.blocks k.log, memory.strings (kmalloc_call ∷ k.log) name, e)

  -- The thread with its stack and its working directory.
  abbrev pub furnished : Thread → Ptr → Ptr → Thread
  furnished t stack cwd = record t {
    t_stack = stack;
    magic = magic_bytes;
    t_cwd = if cwd == 0 then t.t_cwd else cwd;
  }

  -- The thread at `p` is `t`, and the others are as in `threads`.
  abbrev pub IsAt : (Ptr → Option Thread) → Ptr → Thread → (Ptr → Option Thread) → Type 0
  IsAt threads p t threads' = (threads' p ≡ some t) × ((q : Ptr) → p ≢ q → threads' q ≡ threads q)

  -- The calls that are made for the working directory and the pcb.
  abbrev pub furnish_log : Ptr → Ptr → Log → Log
  furnish_log newguy cwd log =
      md_initpcb_call newguy ∷ (if cwd == 0 then log else vop_incref_call cwd ∷ log)

  pub furnish_lem :
      (newguy stack : Ptr) (k : Kernel) (cur t : Thread)
      → newguy ≢ k.curthread
      → k.threads k.curthread ≡ some cur
      → k.threads newguy ≡ some t
      → (threads : Ptr → Option Thread) × (furnish newguy stack k
          ≡ ok (tt, record k { threads = threads; log = furnish_log newguy cur.t_cwd k.log }))
        × IsAt k.threads newguy (furnished t stack cur.t_cwd) threads
  unfolding furnish
  furnish_lem newguy stack k cur t apart running found = elim (Bool-cases (cur.t_cwd == 0)) [
    | inl none_yet ↦ (
      update k.threads newguy (some (record t { t_stack = stack; magic = magic_bytes })),
      ground (arith, running, found, apart, none_yet),
      (ground (arith, none_yet), λ q other. ground arith),
    )
    | inr inherits ↦ (
      update (update k.threads newguy (some (record t { t_stack = stack; magic = magic_bytes })))
          newguy (some (record t { t_stack = stack; magic = magic_bytes; t_cwd = cur.t_cwd })),
      ground (arith, running, found, apart, inherits),
      (ground (arith, inherits), λ q other. ground arith),
    )
  ]
