-- ===== src/Tests/Lists.antt =====
-- A platform whose arrays and run queue are lists and whose memory never runs out, with its laws.
use cse4300_project.Prelude.{
  ℕ, zero, suc, ◌+◌, ◌<◌, ◌≡◌, refl, arith, List, [], ◌∷◌, ◌++◌, Option, none, some, length,
  get_elem?, get_or, take,
}
use cse4300_project.Platform.{Ptr, Platform, Laws, remove_at}
use cse4300_project.Kernel.{Thread, Kernel, update, Cell}
use cse4300_project.Thread.Switch.{magic_bytes}

-- The entry of a list at an index, or NULL.
pub get_elem?-get_or :
    (xs : List Ptr) (i : ℕ) → i < length xs → get_elem? xs i ≡ some (get_or xs i 0)
get_elem?-get_or [] i h = absurd (omega arith)
get_elem?-get_or (x ∷ xs) zero h = refl
get_elem?-get_or (x ∷ xs) (suc i) h = get_elem?-get_or xs i (omega arith)

abbrev pub pop_front : List Ptr → Ptr × List Ptr
pop_front [] = (0, [])
pop_front (p ∷ ps) = (p, ps)

pub front :
    (q : List Ptr) (p : Ptr) (ps : List Ptr)
    → q ≡ p ∷ ps
    → ((pop_front q).0 ≡ p) × ((pop_front q).1 ≡ ps)
front q p ps e = rw e (refl, refl)

pub created : (a : List Ptr) → ◌≡◌ {A = Option (List Ptr)} (some []) (some a) → a ≡ []
created a e = cc

-- Blocks are handed out at 100, 101, … by the number of calls made so far.
instance abbrev pub lists : Platform
lists = record {
  Arr = List Ptr;
  RunQueue = List Ptr;
  array_create = λ log. some [];
  array_getnum = length;
  array_getguy = λ a i. get_or a i 0;
  array_add = λ a p. record { code = 0; value = a ++ p ∷ [] };
  array_remove = remove_at;
  array_setsize = λ a n. record { code = 0; value = take n a };
  array_preallocate = λ a n. record { code = 0; value = a };
  make_runnable = λ q p. record { code = 0; value = q ++ p ∷ [] };
  scheduler = pop_front;
  scheduler_preallocate = λ q n. record { code = 0; value = q };
  scheduler_killall = λ q. [];
  kmalloc = λ log. record { at = 100 + length log; content = 7 };
  kstrdup = λ log s. 100 + length log;
  splhigh = λ s. (s, 15);
  splx = λ s old. old;
  spl0 = λ s. 0;
}

abbrev pub lists_laws : Laws lists
lists_laws = record {
  view = λ a. a;
  HasRoom = λ a n. Unit {0};
  getnum-view = λ a. refl;
  getguy-view = get_elem?-get_or;
  add-view = λ a p e. refl;
  add-HasRoom = λ a p n r h. (refl, tt);
  remove-HasRoom = λ a i n r h. tt;
  remove-view = λ a i h. refl;
  setsize_zero = λ a. refl;
  setsize-view = λ a. refl;
  create-view = λ log a e. created a e;
  preallocate-view = λ a n. refl;
  preallocate-HasRoom = λ a n e. tt;
  queued = λ q. q;
  HasSlots = λ q n. Unit {0};
  make_runnable-queued = λ q p e. refl;
  make_runnable-HasSlots = λ q p n s h. (refl, tt);
  scheduler-queued = front;
  scheduler-HasSlots = λ q n h. tt;
  scheduler_preallocate-queued = λ q n. refl;
  scheduler_preallocate-HasSlots = λ q n e. tt;
  splhigh_back = λ s. refl;
  splhigh_pos = λ s. omega arith;
  splx_restores = λ s old. refl;
}

abbrev pub cell : ℕ → Cell
cell v = record { at = 500; value = v }

-- A thread with a stack, asleep on an address or awake.
abbrev pub thread_at : Ptr → ℕ → ℕ → List Ptr → Thread
thread_at addr pid parent children = record {
  t_name = 400;
  t_sleepaddr = addr;
  t_stack = 300;
  magic = magic_bytes;
  t_pid = record { at = 501; value = pid };
  parent = record { at = 502; value = parent };
  t_exit = record { at = 503; value = 42 };
  is_detached = record { at = 504; value = 0 };
  has_exited = record { at = 505; value = 0 };
  children = some children;
  t_vmspace = 0;
  t_cwd = 0;
}

-- Thread 1 runs, with the children 2 and 3; 2 sleeps on the semaphore at 10, 3 on the lock at 20,
-- and 4 is ready.
abbrev pub threads : Ptr → Option Thread
threads =
    update
      (update
        (update (update (λ p. none) 1 (some (thread_at 0 1 0 (2 ∷ 3 ∷ [])))) 2
          (some (thread_at 10 2 1 [])))
        3 (some (thread_at 20 2 1 [])))
      4 (some (thread_at 0 4 0 []))

abbrev pub machine : Kernel
machine = record {
  curthread = 1;
  threads = threads;
  sleepers = some (2 ∷ 3 ∷ []);
  zombies = some [];
  joinable = some [];
  runqueue = 4 ∷ [];
  numthreads = 4;
  curspl = 15;
  in_interrupt = 0;
  semaphores = update (λ p. none) 10 (some (record { name = 401; count = 0 }));
  locks = update (λ p. none) 20 (some (record { name = 402; owner = 1 }));
  cvs = λ p. none;
  log = [];
}
