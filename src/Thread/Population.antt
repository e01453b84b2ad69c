-- ===== src/Thread/Population.antt =====
-- The threads that the kernel knows: the current one, the run queue and the sleepers of thread.c.
use cse4300_project.Prelude.{
  ℕ, ◌+◌, ◌≤◌, ◌≡◌, ◌≢◌, refl, Bool, true, List, [], ◌∷◌, ◌++◌, Option, none, some, arith, ◌==◌,
  if◌then◌else◌, length, inl, inr, Bool-cases,
}
use cse4300_project.Platform.{Ptr, Platform, Laws}
use cse4300_project.Platform.Arrays.{select, reject}
use cse4300_project.Kernel.{Kernel, Thread, update}
use cse4300_project.Thread.Switch.{has_magic}
use cse4300_project.Thread.Wakeup.{AreThreads}

-- How often `p` stands in the list.
abbrev pub occurrences : Ptr → List Ptr → ℕ
occurrences p [] = 0
occurrences p (x ∷ xs) = (if p == x then 1 else 0) + occurrences p xs

pub occurrences-append :
    (p : Ptr) (xs ys : List Ptr) → occurrences p (xs ++ ys) ≡ occurrences p xs + occurrences p ys
occurrences-append p [] ys = omega arith
occurrences-append p (x ∷ xs) ys = omega (arith, occurrences-append p xs ys)

-- What is selected and what is rejected make up the list.
pub occurrences-select :
    (p : Ptr) (test : Ptr → Bool) (xs : List Ptr)
    → occurrences p (select test xs) + occurrences p (reject test xs) ≡ occurrences p xs
occurrences-select p test [] = omega arith
occurrences-select p test (x ∷ xs) = elim (Bool-cases (test x)) [
  | inl hit ↦ rw hit (omega (arith, occurrences-select p test xs))
  | inr miss ↦ rw miss (omega (arith, occurrences-select p test xs))
]

pub length-select :
    (test : Ptr → Bool) (xs : List Ptr)
    → length (select test xs) + length (reject test xs) ≡ length xs
length-select test [] = omega arith
length-select test (x ∷ xs) = elim (Bool-cases (test x)) [
  | inl hit ↦ rw hit (omega (arith, length-select test xs))
  | inr miss ↦ rw miss (omega (arith, length-select test xs))
]

module _ ⦃os : Platform⦄ where
  -- A thread that may run: it is allocated, and its stack has not overflowed.
  pub record IsAlive (threads : Ptr → Option Thread) (p : Ptr) : Type 0 where
    pub real : p ≢ 0
    pub thread : Thread
    pub found : threads p ≡ some thread
    pub magic : has_magic thread ≡ true

  abbrev pub AreAlive : (Ptr → Option Thread) → List Ptr → Type 0
  AreAlive threads [] = Unit
  AreAlive threads (p ∷ ps) = IsAlive threads p × AreAlive threads ps

  pub AreAlive-append :
      (threads : Ptr → Option Thread) (xs ys : List Ptr)
      → AreAlive threads xs
      → AreAlive threads ys
      → AreAlive threads (xs ++ ys)
  AreAlive-append threads [] ys v w = w
  AreAlive-append threads (x ∷ xs) ys v w = (v.0, AreAlive-append threads xs ys v.1 w)

  pub AreAlive-select :
      (threads : Ptr → Option Thread) (test : Ptr → Bool) (xs : List Ptr)
      → AreAlive threads xs
      → AreAlive threads (select test xs) × AreAlive threads (reject test xs)
  AreAlive-select threads test [] v = (tt, tt)
  AreAlive-select threads test (x ∷ xs) v =
      let (hits, misses) = AreAlive-select threads test xs v.1 in
      elim (Bool-cases (test x)) [
        | inl hit ↦ rw hit ((v.0, hits), misses)
        | inr miss ↦ rw miss (hits, (v.0, misses))
      ]

  pub AreAlive-AreThreads :
      (threads : Ptr → Option Thread) (xs : List Ptr) → AreAlive threads xs → AreThreads threads xs
  AreAlive-AreThreads threads [] v = tt
  AreAlive-AreThreads threads (x ∷ xs) (v, vs) =
      ((v.thread, v.found), AreAlive-AreThreads threads xs vs)

  -- A new sleep address kills nobody.
  pub AreAlive-update :
      (threads : Ptr → Option Thread) (p addr : Ptr) (t : Thread) (xs : List Ptr)
      → has_magic t ≡ true
      → AreAlive threads xs
      → AreAlive (update threads p (some (record t { t_sleepaddr = addr }))) xs
  AreAlive-update threads p addr t [] magic v = tt
  AreAlive-update threads p addr t (x ∷ xs) magic (v, vs) = (
    elim (Bool-cases (p == x)) [
      | inl here ↦ record {
        real = v.real;
        thread = record t { t_sleepaddr = addr };
        found = rw here refl;
        magic = magic;
      }
      | inr there ↦ record {
        real = v.real;
        thread = v.thread;
        found = rw there v.found;
        magic = v.magic;
      }
    ],
    AreAlive-update threads p addr t xs magic vs,
  )

module _ ⦃os : Platform⦄ (laws : Laws os) (n : ℕ) where
  open laws use {view, queued, HasRoom, HasSlots}

  -- The kernel holds at most `n` threads, all alive, with room for each of them in the sleepers and
  -- in the run queue: what thread_fork sets aside.
  pub record IsHealthy (k : Kernel) : Type 0 where
    pub sleepers : os.Arr
    pub array : k.sleepers ≡ some sleepers
    pub current : IsAlive k.threads k.curthread
    pub ready : AreAlive k.threads (queued k.runqueue)
    pub asleep : AreAlive k.threads (view sleepers)
    pub room : HasRoom sleepers n
    pub slots : HasSlots k.runqueue n
    pub fits : 1 + length (queued k.runqueue) + length (view sleepers) ≤ n

  -- The same without the room: what thread_bootstrap leaves, where no array has grown yet.
  pub record IsSound (k : Kernel) : Type 0 where
    pub sleepers : os.Arr
    pub array : k.sleepers ≡ some sleepers
    pub current : IsAlive k.threads k.curthread
    pub ready : AreAlive k.threads (queued k.runqueue)
    pub asleep : AreAlive k.threads (view sleepers)
    pub fits : 1 + length (queued k.runqueue) + length (view sleepers) ≤ n

  abbrev pub sound : (k : Kernel) → IsHealthy k → IsSound k
  sound k h = record {
    sleepers = h.sleepers;
    array = h.array;
    current = h.current;
    ready = h.ready;
    asleep = h.asleep;
    fits = h.fits;
  }

  -- How often the thread at `p` stands in the kernel.
  abbrev pub population : Ptr → Kernel → Option os.Arr → ℕ
  population p k (some a) = occurrences p (k.curthread ∷ queued k.runqueue) + occurrences p (view a)
  population p k none = occurrences p (k.curthread ∷ queued k.runqueue)

  -- `k'` is healthy and holds the threads that `k` holds, none lost and none twice.
  pub record Keeps (k k' : Kernel) : Type 0 where
    pub healthy : IsHealthy k'
    pub same : (p : Ptr) → population p k' k'.sleepers ≡ population p k k.sleepers
