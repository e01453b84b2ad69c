-- ===== src/Thread/Signal.antt =====
-- What thread_wakeone and thread_hassleepers do, over the list that `sleepers` stands for.
use cse4300_project.Prelude.{
  ℕ, zero, suc, ◌+◌, ◌<◌, ◌≡◌, refl, ap, ◌∙◌, Bool, true, false, ◌||◌, List, [], ◌∷◌, ◌++◌, some,
  arith, ltb, ◌==◌, if◌then◌else◌, length, get_elem?, inl, inr, Bool-cases,
}
use cse4300_project.Platform.{Ptr, Platform, Laws}
use cse4300_project.Platform.Arrays.{at_end, in_range, getguy_here, passed, length-snoc}
use cse4300_project.Kernel.{Kernel, Thread, ok, waits}
use cse4300_project.Thread.Sleep.{thread_wakeone, thread_hassleepers, hassleepers_loop}
use cse4300_project.Thread.Wakeup.{AreThreads}

module _ ⦃os : Platform⦄ (laws : Laws os) (addr : Ptr) where
  open laws use {view, HasSlots, queued}

  -- The entry at `i` decides; the entry at 0 is taken out.
  wakeone_run :
      (i : ℕ) (k : Kernel) (a : os.Arr) (x : Ptr) (t : Thread)
      → 0 < k.curspl
      → k.sleepers ≡ some a
      → os.array_getguy a i ≡ x
      → k.threads x ≡ some t
      → (os.make_runnable k.runqueue x).code ≡ 0
      → thread_wakeone i addr k ≡ (
          if t.t_sleepaddr == addr
          then ok (
            tt,
            record k {
              sleepers = some (os.array_remove a 0);
              runqueue = (os.make_runnable k.runqueue x).value;
            },
          )
          else ok (tt, k))
  unfolding thread_wakeone
  wakeone_run i k a x t off e here found runs = ground arith

  length-get_elem? : (xs : List Ptr) (i : ℕ) (x : Ptr) → get_elem? xs i ≡ some x → i < length xs
  length-get_elem? [] i x e = cc
  length-get_elem? (y ∷ xs) zero x e = omega arith
  length-get_elem? (y ∷ xs) (suc i) x e = omega (arith, length-get_elem? xs i x e)

  -- With interrupts off, room in the run queue, and any index but 0 in the variable that
  -- thread_wakeone does not set: if the thread at that entry of the sleepers sleeps on addr, it is
  -- made runnable and stays in the sleepers, and the first sleeper is dropped without being made
  -- runnable.
  pub thread_wakeone-drops :
      (j n : ℕ) (k : Kernel) (a : os.Arr) (first x : Ptr) (others : List Ptr) (t : Thread)
      → 0 < k.curspl
      → k.sleepers ≡ some a
      → view a ≡ first ∷ others
      → get_elem? others j ≡ some x
      → k.threads x ≡ some t
      → t.t_sleepaddr ≡ addr
      → HasSlots k.runqueue n
      → length (queued k.runqueue) < n
      → (s : os.Arr) × (q : os.RunQueue) × (thread_wakeone (suc j) addr k
          ≡ ok (tt, record k { sleepers = some s; runqueue = q }))
        × (view s ≡ others)
        × (queued q ≡ queued k.runqueue ++ x ∷ [])
  thread_wakeone-drops j n k a first x others t off e entries at_j found on_addr slots room = (
    os.array_remove a 0,
    (os.make_runnable k.runqueue x).value,
    wakeone_run (suc j) k a x t off e here found runs ∙ rw hit refl,
    laws.remove-view a 0 (omega (arith, ap length entries)) ∙ rw entries refl,
    laws.make_runnable-queued k.runqueue x runs,
  )
    where
      hit : (t.t_sleepaddr == addr) ≡ true
      hit = ground arith

      runs : (os.make_runnable k.runqueue x).code ≡ 0
      runs = (laws.make_runnable-HasSlots k.runqueue x n slots room).0

      here : os.array_getguy a (suc j) ≡ x
      here = cc (
        laws.getguy-view a (suc j)
            (omega (arith, ap length entries, length-get_elem? others j x at_j)),
        ap (λ l. get_elem? l (suc j)) entries,
        at_j,
      )

  -- With interrupts off, room in the run queue, and 0 in the variable that thread_wakeone does not
  -- set: the first sleeper is woken if it sleeps on addr; if it does not, nobody is, whoever else
  -- sleeps on addr.
  pub thread_wakeone-first :
      (n : ℕ) (k : Kernel) (a : os.Arr) (first : Ptr) (others : List Ptr) (t : Thread)
      → 0 < k.curspl
      → k.sleepers ≡ some a
      → view a ≡ first ∷ others
      → k.threads first ≡ some t
      → HasSlots k.runqueue n
      → length (queued k.runqueue) < n
      → (s : os.Arr) × (q : os.RunQueue) × (thread_wakeone 0 addr k
          ≡ ok (tt, record k { sleepers = some s; runqueue = q }))
        × (view s ≡ (if t.t_sleepaddr == addr then others else first ∷ others))
        × (queued q ≡ (
            if t.t_sleepaddr == addr then queued k.runqueue ++ first ∷ [] else queued k.runqueue))
  thread_wakeone-first n k a first others t off e entries found slots room =
      elim (Bool-cases (t.t_sleepaddr == addr)) [
        | inl hit ↦ (
          os.array_remove a 0,
          (os.make_runnable k.runqueue first).value,
          wakeone_run 0 k a first t off e here found runs ∙ rw hit refl,
          laws.remove-view a 0 (omega (arith, ap length entries)) ∙ rw (entries, hit) refl,
          rw hit (laws.make_runnable-queued k.runqueue first runs),
        )
        | inr miss ↦ (
          a,
          k.runqueue,
          wakeone_run 0 k a first t off e here found runs ∙ rw miss (ground arith),
          rw miss entries,
          rw miss refl,
        )
      ]
    where
      runs : (os.make_runnable k.runqueue first).code ≡ 0
      runs = (laws.make_runnable-HasSlots k.runqueue first n slots room).0

      here : os.array_getguy a 0 ≡ first
      here = getguy_here laws a [] first others entries

  -- Does anybody in the list sleep on `addr`?
  abbrev pub any_waits : (Ptr → Bool) → List Ptr → Bool
  any_waits test [] = false
  any_waits test (x ∷ xs) = test x || any_waits test xs

  hassleepers_step :
      (fuel i : ℕ) (k : Kernel) (a : os.Arr) (x : Ptr) (t : Thread)
      → k.sleepers ≡ some a
      → ltb i (os.array_getnum a) ≡ true
      → os.array_getguy a i ≡ x
      → k.threads x ≡ some t
      → hassleepers_loop (suc fuel) i addr k
        ≡ (if waits k.threads addr x then ok (1, k) else hassleepers_loop fuel (i + 1) addr k)
  unfolding hassleepers_loop
  hassleepers_step fuel i k a x t c more here found = ground arith

  hassleepers_loop-any :
      (fuel i : ℕ) (k : Kernel) (a : os.Arr) (pre xs : List Ptr)
      → k.sleepers ≡ some a
      → i ≡ length pre
      → view a ≡ pre ++ xs
      → AreThreads k.threads xs
      → length xs < fuel
      → hassleepers_loop fuel i addr k
        ≡ ok ((if any_waits (waits k.threads addr) xs then 1 else 0), k)
  unfolding hassleepers_loop
  hassleepers_loop-any zero i k a pre xs c j e v h = absurd (omega arith)
  hassleepers_loop-any (suc fuel) i k a pre [] c j e v h = ground (arith, at_end laws a pre e)
  hassleepers_loop-any (suc fuel) i k a pre (x ∷ xs) c j e ((t, found), v) h =
      hassleepers_step fuel i k a x t c (rw j (in_range laws a pre x xs e))
        (rw j (getguy_here laws a pre x xs e)) found
      ∙ elim (Bool-cases (waits k.threads addr x)) [
        | inl hit ↦ rw hit refl
        | inr miss ↦ rw miss (
            hassleepers_loop-any fuel (i + 1) k a (pre ++ x ∷ []) xs c
              (omega (arith, length-snoc pre x)) (passed laws a pre x xs e) v (omega arith))
      ]

  -- With interrupts off and a sleepers array whose entries all point to threads,
  -- thread_hassleepers returns 1 exactly if some sleeper sleeps on addr, and 0 otherwise; it
  -- changes nothing.
  pub thread_hassleepers-any :
      (k : Kernel) (a : os.Arr)
      → 0 < k.curspl
      → k.sleepers ≡ some a
      → AreThreads k.threads (view a)
      → thread_hassleepers addr k
        ≡ ok ((if any_waits (waits k.threads addr) (view a) then 1 else 0), k)
  unfolding thread_hassleepers
  thread_hassleepers-any k a off c v = ground (
    arith,
    hassleepers_loop-any (suc (os.array_getnum a)) 0 k a [] (view a) c refl refl v
        (omega (arith, laws.getnum-view a)),
  )
