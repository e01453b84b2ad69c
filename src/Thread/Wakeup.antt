-- ===== src/Thread/Wakeup.antt =====
-- What the scans of `sleepers` do, over the list that the array stands for.
use cse4300_project.Prelude.{
  ℕ, zero, suc, ◌+◌, ◌≤◌, ◌<◌, ◌≡◌, refl, sym, ap, ◌∙◌, true, false, List, [], ◌∷◌, ◌++◌, Option,
  some, arith, ltb, ◌==◌, length, length-append, inl, inr, Bool-cases,
}
use mathlib.Core.List.{append-nil}
use cse4300_project.Platform.{Ptr, Platform, Laws}
use cse4300_project.Platform.Arrays.{
  select, reject, at_end, in_range, getguy_here, remove_here, passed, append-snoc, length-snoc,
}
use cse4300_project.Kernel.{Kernel, Thread, Result, ok, waits}
use cse4300_project.Thread.Sleep.{wakeup_loop, thread_wakeup}

module _ ⦃os : Platform⦄ where
  -- Every entry points to a thread.
  abbrev pub AreThreads : (Ptr → Option Thread) → List Ptr → Type 0
  AreThreads threads [] = Unit
  AreThreads threads (p ∷ ps) = ((t : Thread) × (threads p ≡ some t)) × AreThreads threads ps

module _ ⦃os : Platform⦄ (laws : Laws os) (addr : Ptr) (n : ℕ) where
  open laws use {view, HasRoom, HasSlots, queued}

  -- What a scan from the entries `xs` on, with `pre` passed before, leaves of `k`.
  abbrev pub Woken : Kernel → List Ptr → List Ptr → Result (Unit {0} × Kernel) → Type 0
  Woken k pre xs r =
      (s : os.Arr) × (q : os.RunQueue) × (r ≡ ok (tt, record k { sleepers = some s; runqueue = q }))
      × (view s ≡ pre ++ reject (waits k.threads addr) xs)
      × (queued q ≡ queued k.runqueue ++ select (waits k.threads addr) xs)
      × HasSlots q n
      × HasRoom s n

  -- The kernel with the entry at `i` taken out and made runnable.
  abbrev move_out : os.Arr → ℕ → Ptr → Kernel → Kernel
  move_out a i x k = record k {
    sleepers = some (os.array_remove a i);
    runqueue = (os.make_runnable k.runqueue x).value;
  }

  module _ (fuel i : ℕ) (k : Kernel) (a : os.Arr) (x : Ptr) (t : Thread)
      (array : k.sleepers ≡ some a) (more : ltb i (os.array_getnum a) ≡ true)
      (here : os.array_getguy a i ≡ x) (found : k.threads x ≡ some t) where
    step_hit :
        (t.t_sleepaddr == addr) ≡ true
        → (os.make_runnable k.runqueue x).code ≡ 0
        → wakeup_loop (suc fuel) i addr k ≡ wakeup_loop fuel i addr (move_out a i x k)
    unfolding wakeup_loop
    step_hit hit runs = ground arith

    step_miss :
        (t.t_sleepaddr == addr) ≡ false
        → wakeup_loop (suc fuel) i addr k ≡ wakeup_loop fuel (i + 1) addr k
    unfolding wakeup_loop
    step_miss miss = ground arith

  wakeup_loop-Woken :
      (fuel i : ℕ) (k : Kernel) (a : os.Arr) (pre xs : List Ptr)
      → k.sleepers ≡ some a
      → i ≡ length pre
      → view a ≡ pre ++ xs
      → AreThreads k.threads xs
      → HasSlots k.runqueue n
      → HasRoom a n
      → length (queued k.runqueue) + length xs ≤ n
      → length xs < fuel
      → Woken k pre xs (wakeup_loop fuel i addr k)
  unfolding wakeup_loop
  wakeup_loop-Woken zero i k a pre xs c j e v r room fits h = absurd (omega arith)
  wakeup_loop-Woken (suc fuel) i k a pre [] c j e v r room fits h = (
    a,
    k.runqueue,
    ground (arith, at_end laws a pre e),
    e,
    sym (append-nil (queued k.runqueue)),
    r,
    room,
  )
  wakeup_loop-Woken (suc fuel) i k a pre (x ∷ xs) c j e ((t, found), v) r room fits h =
      elim (Bool-cases (t.t_sleepaddr == addr)) [
        | inl hit ↦
            let w : waits k.threads addr x ≡ true = rw (found, waits) hit in
            let (s, q, run, kept, woken, slots, left) =
              wakeup_loop-Woken fuel i (move_out a i x k) (os.array_remove a i) pre xs refl j
                (rw j (remove_here laws a pre x xs e)) v runs.1
                (laws.remove-HasRoom a i n room
                  (omega (arith, j, ap length e, length-append pre (x ∷ xs))))
                (omega (arith, ap length line, length-snoc (queued k.runqueue) x)) (omega arith) in
            (
              s,
              q,
              step_hit fuel i k a x t c more here found hit runs.0 ∙ run,
              rw w kept,
              rw w (woken ∙ rw line (append-snoc (queued k.runqueue) x _)),
              slots,
              left,
            )
        | inr miss ↦
            let w : waits k.threads addr x ≡ false = rw (found, waits) miss in
            let (s, q, run, kept, woken, slots, left) =
              wakeup_loop-Woken fuel (i + 1) k a (pre ++ x ∷ []) xs c
                (omega (arith, length-snoc pre x)) (passed laws a pre x xs e) v r room (omega arith)
                (omega arith) in
            (
              s,
              q,
              step_miss fuel i k a x t c more here found miss ∙ run,
              rw w (kept ∙ append-snoc pre x _),
              rw w woken,
              slots,
              left,
            )
      ]
    where
      runs :
          ((os.make_runnable k.runqueue x).code ≡ 0)
          × HasSlots (os.make_runnable k.runqueue x).value n
      runs = laws.make_runnable-HasSlots k.runqueue x n r (omega arith)

      line : queued (os.make_runnable k.runqueue x).value ≡ queued k.runqueue ++ x ∷ []
      line = laws.make_runnable-queued k.runqueue x runs.0

      more : ltb i (os.array_getnum a) ≡ true
      more = rw j (in_range laws a pre x xs e)

      here : os.array_getguy a i ≡ x
      here = rw j (getguy_here laws a pre x xs e)

  enter :
      (k : Kernel) (a : os.Arr)
      → k.sleepers ≡ some a
      → 0 < k.curspl
      → thread_wakeup addr k ≡ wakeup_loop (suc (os.array_getnum a)) 0 addr k
  unfolding thread_wakeup
  enter k a c off = ground arith

  -- With interrupts off, a sleepers array whose entries all point to threads, and room in the run
  -- queue for all of them, thread_wakeup(addr) returns: every sleeper on addr leaves the sleepers
  -- and joins the end of the run queue, in order; the other sleepers stay, in order; nothing else
  -- changes.
  pub thread_wakeup-Woken :
      (k : Kernel) (a : os.Arr)
      → k.sleepers ≡ some a
      → 0 < k.curspl
      → AreThreads k.threads (view a)
      → HasSlots k.runqueue n
      → HasRoom a n
      → length (queued k.runqueue) + length (view a) ≤ n
      → Woken k [] (view a) (thread_wakeup addr k)
  thread_wakeup-Woken k a c off v r room fits =
      let (s, q, run, kept, woken, slots, left) =
        wakeup_loop-Woken (suc (os.array_getnum a)) 0 k a [] (view a) c refl refl v r room fits
          (omega (arith, laws.getnum-view a)) in
      (s, q, enter k a c off ∙ run, kept, woken, slots, left)
