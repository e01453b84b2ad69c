-- ===== src/Thread/Forking/Growth.antt =====
-- thread_fork of thread.c adds one thread to a healthy kernel, while memory lasts.
use cse4300_project.Thread.Fork.{Stored, address_of_pid}
use cse4300_project.Prelude.{
  refl, ℕ, ◌+◌, ◌*◌, ◌^◌, ◌<◌, ◌≡◌, ◌≢◌, ◌∙◌, Bool, true, false, List, [], ◌∷◌, ◌++◌, Option, none,
  some, arith, ◌==◌, if◌then◌else◌, inl, inr, Bool-cases,
}
use cse4300_project.Platform.{Ptr, Platform, Laws, Log}
use cse4300_project.Kernel.{Kernel, Thread, ok, int32, update}
use cse4300_project.Thread.Switch.{has_magic}
use cse4300_project.Thread.Search.{IsWhole}
use cse4300_project.Thread.Adoption.{AreReal, adopt_lem, child_of}
use cse4300_project.Thread.Population.{IsAlive, AreAlive, IsHealthy, population}
use cse4300_project.Thread.Forking.Furnishing.{
  HasMemory, IsPlentiful, new_thread, new_at, furnished, IsAt,
}
use cse4300_project.Thread.Forking.Reserving.{orphan_of, disown_lem}
use cse4300_project.Thread.Forking.Run.{joins_family}

module _ ⦃os : Platform⦄ where
  -- Who lives in `threads` lives in `threads'`.
  abbrev pub Spares : (Ptr → Option Thread) → (Ptr → Option Thread) → Type 0
  Spares threads threads' = (p : Ptr) → IsAlive threads p → IsAlive threads' p

  pub Spares-IsAt :
      (threads threads' : Ptr → Option Thread) (p : Ptr) (t : Thread)
      → has_magic t ≡ true
      → IsAt threads p t threads'
      → Spares threads threads'
  Spares-IsAt threads threads' p t magic (here, others) q v = elim (Bool-cases (p == q)) [
    | inl same ↦
        let e : p ≡ q = ground arith in
        record { real = v.real; thread = t; found = rw (← e) here; magic = magic }
    | inr apart ↦ record {
      real = v.real;
      thread = v.thread;
      found = others q (ground arith) ∙ v.found;
      magic = v.magic;
    }
  ]

  pub update-IsAt :
      (threads : Ptr → Option Thread) (p : Ptr) (t : Thread)
      → IsAt threads p t (update threads p (some t))
  update-IsAt threads p t = (ground arith, λ q apart. ground arith)

  pub Spares-AreAlive :
      (threads threads' : Ptr → Option Thread) (ps : List Ptr)
      → Spares threads threads'
      → AreAlive threads ps
      → AreAlive threads' ps
  Spares-AreAlive threads threads' [] s v = tt
  Spares-AreAlive threads threads' (p ∷ ps) s (v, vs) =
      (s p v, Spares-AreAlive threads threads' ps s vs)

module _ ⦃os : Platform⦄ (laws : Laws os) where
  open laws use {view, queued}

  -- What is stored for a caller who wants the pid.
  abbrev pub handed : Bool → Option Stored
  handed true = some address_of_pid
  handed false = none

  -- What a new thread whose pid is wanted records, with `pid` for its parent's.
  abbrev pub IsChild : Bool → ℕ → Thread → Type 0
  IsChild true pid child =
      (child.t_pid.value ≡ int32 (pid * 2)) × (child.parent.value ≡ pid) × (child.t_exit.value ≡ 0)
  IsChild false pid child = Unit

  -- Only a child whose pid is wanted is entered among the children.
  abbrev pub family_of : Bool → List Ptr → Ptr → List Ptr
  family_of true ps newguy = ps ++ newguy ∷ []
  family_of false ps newguy = ps

  -- The new thread is at `newguy`, not detached and not exited, and the thread at `current` keeps
  -- its pid and has it among its children where its pid is wanted.
  pub record Adopts (wants_pid : Bool) (pid : ℕ) (ps : List Ptr) (current newguy : Ptr)
      (threads : Ptr → Option Thread) : Type 0 where
    pub child : Thread
    pub found : threads newguy ≡ some child
    pub attached : child.is_detached.value ≡ 0
    pub alive : child.has_exited.value ≡ 0
    pub records : IsChild wants_pid pid child
    pub parent : Thread
    pub present : threads current ≡ some parent
    pub own_pid : parent.t_pid.value ≡ pid
    pub children : os.Arr
    pub kept : parent.children ≡ some children
    pub family : view children ≡ family_of wants_pid ps newguy

  pub joins_family_lem :
      (newguy : Ptr) (wants_pid : Bool) (k : Kernel) (cur t : Thread) (ch : os.Arr)
      → newguy ≢ k.curthread
      → k.threads k.curthread ≡ some cur
      → k.threads newguy ≡ some t
      → IsWhole cur
      → IsWhole t
      → cur.children ≡ some ch
      → AreReal (view ch)
      → (os.array_add ch newguy).code ≡ 0
      → has_magic cur ≡ true
      → has_magic t ≡ true
      → (threads : Ptr → Option Thread) × (joins_family newguy wants_pid k
          ≡ ok ((0, handed wants_pid), record k { threads = threads }))
        × Spares k.threads threads
        × Adopts wants_pid cur.t_pid.value (view ch) k.curthread newguy threads
  joins_family_lem newguy true k cur t ch apart running found w w' e real room magic magic' =
      let threads = update k.threads newguy (some (child_of laws cur t)) in
      let cur' = record cur { children = some (os.array_add ch newguy).value } in
      (
        update threads k.curthread (some cur'),
        ground (arith, adopt_lem laws newguy k cur t ch apart running found w w' e real),
        λ p v.
            Spares-IsAt threads _ k.curthread cur' magic (update-IsAt threads k.curthread cur') p (
              Spares-IsAt k.threads threads newguy (child_of laws cur t) magic'
                (update-IsAt k.threads newguy (child_of laws cur t)) p v),
        record {
          child = child_of laws cur t;
          found = ground (arith, apart);
          attached = refl;
          alive = refl;
          records = (refl, refl, refl);
          parent = cur';
          present = ground arith;
          own_pid = refl;
          children = (os.array_add ch newguy).value;
          kept = refl;
          family = laws.add-view ch newguy room;
        },
      )
  joins_family_lem newguy false k cur t ch apart running found w w' e real room magic magic' = (
    update k.threads newguy (some (orphan_of t)),
    ground (arith, disown_lem newguy k t found w'),
    Spares-IsAt k.threads _ newguy (orphan_of t) magic'
        (update-IsAt k.threads newguy (orphan_of t)),
    record {
      child = orphan_of t;
      found = ground arith;
      attached = refl;
      alive = refl;
      records = tt;
      parent = cur;
      present = ground (arith, apart, running);
      own_pid = refl;
      children = ch;
      kept = e;
      family = refl;
    },
  )

  pub new_thread-IsWhole :
      (memory : HasMemory) (name : Ptr) (log : Log) (a : os.Arr) (stack cwd : Ptr)
      → IsWhole (furnished (new_thread name log a) stack cwd)
  new_thread-IsWhole memory name log a stack cwd = record {
    pid_live = memory.blocks _;
    parent_live = memory.blocks _;
    exit_live = memory.blocks _;
    detached_live = memory.blocks _;
    exited_live = memory.blocks _;
  }

  module _ (n : ℕ) where
    -- What thread_fork is called in: memory lasts, and the arrays of thread.c are there.
    pub record MayFork (k : Kernel) (cur : Thread) : Type 0 where
      pub plenty : IsPlentiful
      pub whole : IsWhole cur
      pub zombies : os.Arr
      pub joinable : os.Arr
      pub children : os.Arr
      pub dead : k.zombies ≡ some zombies
      pub joined : k.joinable ≡ some joinable
      pub family : cur.children ≡ some children
      pub real : AreReal (view children)
      pub count : k.numthreads ≡ n
      pub fits : n + 1 < 2 ^ 31
      pub fresh : new_at k ≢ k.curthread

    -- The new thread at `newguy` is last in the run queue, and everyone else is where they were.
    pub record Gains (k k' : Kernel) (newguy : Ptr) : Type 0 where
      pub healthy : IsHealthy laws (n + 1) k'
      pub count : k'.numthreads ≡ n + 1
      pub level : k'.curspl ≡ k.curspl
      pub current : k'.curthread ≡ k.curthread
      pub ready : queued k'.runqueue ≡ queued k.runqueue ++ newguy ∷ []
      pub same :
          (p : Ptr)
          → population laws n p k' k'.sleepers
            ≡ population laws n p k k.sleepers + (if p == newguy then 1 else 0)
