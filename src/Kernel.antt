-- ===== src/Kernel.antt =====
-- The kernel's data: struct thread (project_5_6/thread.h), the globals of thread.c, the structs of
-- synch.h, and the monad of the functions over them.
use cse4300_project.Prelude.{
  ℕ, ◌%◌, ◌^◌, Bool, true, false, ◌&&◌, List, ◌∷◌, Option, none, some, ltb, ◌==◌, if◌then◌else◌,
}
use cse4300_project.Platform.{
  Ptr, Event, kfree_call, kmalloc_call, kstrdup_call, Log, Block, Platform,
}

-- A pointer member to one int, with the int that it points to. `at` is 0 where kmalloc failed.
pub record Cell : Type 0 where
  pub at : Ptr
  pub value : ℕ

-- A 32-bit int is its bit pattern.
abbrev pub int32 : ℕ → ℕ
int32 n = n % 2 ^ 32

-- `x > 0`
abbrev pub is_positive : ℕ → Bool
is_positive n = ltb 0 n && ltb n (2 ^ 31)

-- `x >= 0`
abbrev pub is_nonneg : ℕ → Bool
is_nonneg n = ltb n (2 ^ 31)

-- struct semaphore
pub record Semaphore : Type 0 where
  pub name : Ptr
  pub count : ℕ

-- struct lock; `owner` is what the memory held until an operation sets it
pub record Lock : Type 0 where
  pub name : Ptr
  pub owner : Ptr

-- struct cv
pub record Cv : Type 0 where
  pub name : Ptr

pub data Fault : Type 0 where
  assertion null_pointer out_of_fuel panicked : Fault

pub data Result {ℓ} (A : Type ℓ) : Type ℓ where
  ok : A → Result A
  fault : Fault → Result A

abbrev pub update {ℓ} : {A : Type ℓ} → (Ptr → A) → Ptr → A → Ptr → A
update f p v q = if p == q then v else f q

module _ ⦃os : Platform⦄ where
  -- struct thread. `magic` is the bottom of the stack that `t_stack` points to.
  pub record Thread : Type 0 where
    pub t_name : Ptr
    pub t_sleepaddr : Ptr
    pub t_stack : Ptr
    pub magic : List ℕ
    pub t_pid : Cell
    pub parent : Cell
    pub t_exit : Cell
    pub is_detached : Cell
    pub has_exited : Cell
    pub children : Option os.Arr
    pub t_vmspace : Ptr
    pub t_cwd : Ptr

  -- The globals. An address of a struct that is not allocated holds `none`.
  pub record Kernel : Type 0 where
    pub curthread : Ptr
    pub threads : Ptr → Option Thread
    pub sleepers : Option os.Arr
    pub zombies : Option os.Arr
    pub joinable : Option os.Arr
    pub runqueue : os.RunQueue
    pub numthreads : ℕ
    pub curspl : ℕ
    pub in_interrupt : ℕ
    pub semaphores : Ptr → Option Semaphore
    pub locks : Ptr → Option Lock
    pub cvs : Ptr → Option Cv
    pub log : Log

  abbrev pub K : Type 0 → Type 0
  K A = Kernel → Result (A × Kernel)

  abbrev pub pure : {A : Type 0} → A → K A
  pure a k = ok (a, k)

  abbrev pub fail : {A : Type 0} → Fault → K A
  fail e k = fault e

  infixl 5 ◌>>=◌ ◌>>◌
  abbrev pub ◌>>=◌ : {A B : Type 0} → K A → (A → K B) → K B
  ◌>>=◌ m f k = elim (m k) [ fault e ↦ fault e | ok (a, k') ↦ f a k' ]

  abbrev pub ◌>>◌ : {B : Type 0} → K (Unit {0}) → K B → K B
  m >> n = m >>= λ _. n

  abbrev pub assert : Bool → K (Unit {0})
  assert true k = ok (tt, k)
  assert false k = fault assertion

  abbrev pub get : K Kernel
  get k = ok (k, k)

  abbrev pub put : Kernel → K (Unit {0})
  put k _ = ok (tt, k)

  -- A pointer that is read: a fault where it is NULL or freed.
  abbrev pub live : {A : Type 0} → Option A → K A
  live none k = fault null_pointer
  live (some a) k = ok (a, k)

  abbrev pub deref : Ptr → K Thread
  deref p k = live (k.threads p) k

  abbrev pub store : Ptr → Thread → K (Unit {0})
  store p t k = ok (tt, record k { threads = update k.threads p (some t) })

  -- `*cell` and `*cell = v`
  abbrev pub read : Cell → K ℕ
  read c = if c.at == 0 then fail null_pointer else pure c.value

  abbrev pub write : Cell → ℕ → K Cell
  write c v = if c.at == 0 then fail null_pointer else pure (record c { value = v })

  abbrev pub record_call : Event → K (Unit {0})
  record_call e k = ok (tt, record k { log = e ∷ k.log })

  abbrev pub kmalloc : K Block
  kmalloc k = ok (os.kmalloc k.log, record k { log = kmalloc_call ∷ k.log })

  abbrev pub kstrdup : Ptr → K Ptr
  kstrdup s k = ok (os.kstrdup k.log s, record k { log = kstrdup_call s ∷ k.log })

  abbrev pub kfree : Ptr → K (Unit {0})
  kfree p = record_call (kfree_call p)

  abbrev pub splhigh : K ℕ
  splhigh k = let r = os.splhigh k.curspl in ok (r.0, record k { curspl = r.1 })

  abbrev pub splx : ℕ → K (Unit {0})
  splx s k = ok (tt, record k { curspl = os.splx k.curspl s })

  -- `make_runnable(t)` on the kernel's run queue; the result is its error code.
  abbrev pub make_runnable : Ptr → K ℕ
  make_runnable t k =
      let r = os.make_runnable k.runqueue t in ok (r.code, record k { runqueue = r.value })

  -- Is the thread at `p` asleep on `addr`?
  abbrev pub waits : (Ptr → Option Thread) → Ptr → Ptr → Bool
  waits threads addr p = elim (threads p) [ none ↦ false | some t ↦ t.t_sleepaddr == addr ]
