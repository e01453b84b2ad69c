-- ===== src/Synch/Refinement.antt =====
-- The semaphores of synch.c do what the abstract ones do.
use cse4300_project.Prelude.{
  ℕ, ◌+◌, ◌-◌, ◌≡◌, refl, ap, ◌∙◌, [], Option, some, arith, ◌==◌, if◌then◌else◌, inl, inr,
  Bool-cases,
}
use cse4300_project.Platform.{Ptr, Platform, Laws}
use cse4300_project.Kernel.{Kernel, Semaphore, ok, fault, assertion, int32}
use cse4300_project.Thread.Sleeping.{asleep_on}
use cse4300_project.Thread.Population.{occurrences}
use cse4300_project.Thread.Conservation.{Healthy}
use cse4300_project.Synch.Semaphore.{Outcome, asleep, returned, p_start, v_run}
use cse4300_project.Synch.Runs.{v_run-AllWoken, taken}
use cse4300_project.Synch.Acquire.{masked, p_start_lem}
use cse4300_project.Synch.Calls.{Counts, MayBlock, may_wake, may_switch, may_add}
use cse4300_project.Synch.Abstract.{Primitive, lower, raise}
use cse4300_project.Synch.Shown.{seen, shown, woken-Becomes, stored-Becomes, joined-Becomes}

module _ ⦃os : Platform⦄ (laws : Laws os) where
  open laws use {view}

  abbrev count_of : Semaphore → ℕ
  count_of s = s.count

  -- What the kernel shows of a semaphore.
  abbrev seen_semaphore : Kernel → Ptr → Option Primitive
  seen_semaphore k = seen laws count_of k.semaphores k

  -- The semaphore `sem` has become `s`, and no other semaphore has changed.
  abbrev pub Becomes : Kernel → Ptr → Primitive → Kernel → Type 0
  Becomes k sem s k' =
      (q : Ptr) → seen_semaphore k' q ≡ (if sem == q then some s else seen_semaphore k q)

  module _ (n : ℕ) (k : Kernel) (h : Healthy laws n k) (sem : Ptr) (c : Counts laws n k sem) where
    -- The semaphore before the call.
    abbrev pub before : Primitive
    before = shown laws count_of n k h k.semaphores sem c.semaphore c.found

    -- V refines the abstract semaphore, which is a count with the threads that wait for it: in a
    -- healthy kernel it returns, the count seen has gone up by one, nobody waits for the semaphore
    -- any longer, and what is seen of every other semaphore is unchanged. Conditions: the
    -- semaphore is allocated, and its count stays positive as an int when it goes up.
    pub v_run-refines :
        (k' : Kernel) × (v_run sem k ≡ ok (tt, k')) × Becomes k sem (raise before) k'
    v_run-refines =
        let (b, q, run, w) =
          v_run-AllWoken laws sem k h.sleepers n c.semaphore (may_wake laws n k h) c.real c.found
            (ground (arith, c.fits)) in
        (
          _,
          run,
          λ p.
              woken-Becomes laws count_of n k h k.semaphores sem c.semaphore c.found
                (record c.semaphore { count = int32 (c.semaphore.count + 1) }) b (w.0) p
              ∙ ap
                  (λ m.
                    if sem == p
                    then some (record { value = m; waiting = [] })
                    else seen_semaphore k p)
                  one_more,
        )
      where
        one_more : int32 (c.semaphore.count + 1) ≡ c.semaphore.count + 1
        one_more = omega (arith, c.fits)

    -- P, up to its return or first sleep, refines the abstract semaphore in a healthy kernel: at a
    -- positive count it returns and takes one, at 0 the current thread waits behind the others
    -- that wait for the semaphore; what is seen of every other semaphore is unchanged. Conditions:
    -- the semaphore is allocated and its count stays positive as an int when it goes up, another
    -- thread is ready, no interrupt is being handled, and the current thread is not among the
    -- sleepers.
    pub p_start-refines :
        MayBlock laws n k
        → occurrences k.curthread (view h.sleepers) ≡ 0
        → (r : Outcome) × (k' : Kernel) × (p_start sem k ≡ ok ((k.curspl, r), k'))
          × (r ≡ (lower k.curthread before).0)
          × Becomes k sem (lower k.curthread before).1 k'
    p_start-refines b once = elim (Bool-cases (c.semaphore.count == 0)) [
      | inl empty ↦ (
        asleep,
        asleep_on sem (masked laws k) h.current.thread h.sleepers,
        run ∙ rw (b.quiet, empty) refl,
        rw empty refl,
        rw empty (joined-Becomes laws count_of n k h k.semaphores sem c.semaphore c.found once),
      )
      | inr left ↦ (
        returned,
        taken laws sem k.curspl k c.semaphore,
        run ∙ rw (b.quiet, left) refl,
        rw left refl,
        rw left (
            stored-Becomes laws count_of n k h k.semaphores sem c.semaphore c.found
              (record c.semaphore { count = c.semaphore.count - 1 })),
      )
    ]
      where
        run : p_start sem k ≡ (
            if k.in_interrupt == 0
            then if c.semaphore.count == 0
              then ok
                  ((k.curspl, asleep), asleep_on sem (masked laws k) h.current.thread h.sleepers)
              else ok ((k.curspl, returned), taken laws sem k.curspl k c.semaphore)
            else fault assertion)
        run =
            p_start_lem laws sem k c.semaphore c.real c.found h.current.thread h.sleepers
              (may_switch laws n k h) h.array (may_add laws n k h) (omega (arith, c.fits))
