-- ===== src/Synch/Shown.antt =====
-- What the kernel shows of the primitives of one kind, and how it changes.
use cse4300_project.Prelude.{
  ℕ, ◌≡◌, ◌≢◌, refl, ap, ◌∙◌, true, false, [], ◌∷◌, ◌++◌, Option, none, some, arith, ◌==◌,
  if◌then◌else◌, inl, inr, Bool-cases,
}
use cse4300_project.Platform.{Ptr, Platform, Laws}
use cse4300_project.Platform.Arrays.{select, reject}
use cse4300_project.Kernel.{Kernel, Thread, update, waits}
use cse4300_project.Thread.Population.{occurrences}
use cse4300_project.Thread.Conservation.{Healthy}
use cse4300_project.Synch.Sleepers.{asleep_at, select-reject}
use cse4300_project.Synch.Calls.{may_add}
use cse4300_project.Synch.Abstract.{Primitive, select-joined, select-reject_apart}

-- `value` is the number that a primitive of this kind holds.
module _ ⦃os : Platform⦄ (laws : Laws os) {S : Type 0} (value : S → ℕ) where
  open laws use {view}

  -- The primitive at `p`, with the threads that sleep on it.
  abbrev pub show : (Ptr → Option Thread) → Ptr → Option S → Option os.Arr → Option Primitive
  show threads p none a = none
  show threads p (some s) none = none
  show threads p (some s) (some a) =
      some (record { value = value s; waiting = select (waits threads p) (view a) })

  abbrev pub seen : (Ptr → Option S) → Kernel → Ptr → Option Primitive
  seen table k q = show k.threads q (table q) k.sleepers

  module _ (n : ℕ) (k : Kernel) (h : Healthy laws n k) (table : Ptr → Option S) (p : Ptr) (s : S)
      (found : table p ≡ some s) where
    -- The primitive before the call.
    abbrev pub shown : Primitive
    shown = record { value = value s; waiting = select (waits k.threads p) (view h.sleepers) }

    -- It has become `v`, and no other of its kind has changed.
    abbrev pub Becomes : Primitive → (Ptr → Option Primitive) → Type 0
    Becomes v after = (q : Ptr) → after q ≡ (if p == q then some v else seen table k q)

    -- New threads and sleepers that show the same of the other primitives.
    other_seen :
        (threads : Ptr → Option Thread) (q : Ptr) (o : Option S) (b : os.Arr)
        → select (waits threads q) (view b) ≡ select (waits k.threads q) (view h.sleepers)
        → show threads q o (some b) ≡ show k.threads q o (some h.sleepers)
    other_seen threads q none b e = refl
    other_seen threads q (some s) b e = rw e refl

    becomes :
        (threads : Ptr → Option Thread) (new : Ptr → Option S) (s' : S) (b : os.Arr)
        → new p ≡ some s'
        → ((q : Ptr) → p ≢ q → new q ≡ table q)
        → ((q : Ptr)
            → p ≢ q
            → select (waits threads q) (view b) ≡ select (waits k.threads q) (view h.sleepers))
        → Becomes
            (record { value = value s'; waiting = select (waits threads p) (view b) })
            (λ q. show threads q (new q) (some b))
    becomes threads new s' b at_p elsewhere others q = elim (Bool-cases (p == q)) [
      | inl here ↦ let same : p ≡ q = ground arith in rw here (rw (← same) (rw (at_p, show) refl))
      | inr there ↦
          let apart : p ≢ q = ground arith in
          rw (there, elsewhere q apart, h.array) (other_seen threads q (table q) b (others q apart))
    ]

    -- Those who wait for it are woken, and it holds `s'`.
    pub woken-Becomes :
        (s' : S) (b : os.Arr)
        → view b ≡ reject (waits k.threads p) (view h.sleepers)
        → Becomes
            (record { value = value s'; waiting = [] })
            (λ q. show k.threads q (update table p (some s') q) (some b))
    woken-Becomes s' b kept q =
        becomes k.threads (update table p (some s')) s' b (ground arith) (λ r apart. ground arith)
          (λ r apart. rw kept (select-reject_apart k.threads p r (view h.sleepers) apart)) q
        ∙ ap
            (λ w.
              if p == q then some (record { value = value s'; waiting = w }) else seen table k q)
            nobody
      where
        nobody : select (waits k.threads p) (view b) ≡ []
        nobody = rw kept (select-reject (waits k.threads p) (view h.sleepers))

    -- It holds `s'`, and the same threads wait.
    pub stored-Becomes :
        (s' : S)
        → Becomes
            (record shown { value = value s' })
            (λ q. show k.threads q (update table p (some s') q) k.sleepers)
    stored-Becomes s' q =
        ap (show k.threads q (update table p (some s') q)) h.array
        ∙ becomes k.threads (update table p (some s')) s' h.sleepers (ground arith)
            (λ r apart. ground arith) (λ r apart. refl) q

    module _ (once : occurrences k.curthread (view h.sleepers) ≡ 0) where
      abbrev sleeping : Ptr → Option Thread
      sleeping = asleep_at k.threads k.curthread p h.current.thread

      abbrev grown : os.Arr
      grown = (os.array_add h.sleepers k.curthread).value

      joined :
          (q : Ptr)
          → select (waits sleeping q) (view grown) ≡ (
              if p == q
              then select (waits k.threads q) (view h.sleepers) ++ k.curthread ∷ []
              else select (waits k.threads q) (view h.sleepers))
      joined q =
          ap (select (waits sleeping q)) (laws.add-view h.sleepers k.curthread (may_add laws n k h))
          ∙ select-joined k.threads k.curthread p q h.current.thread (view h.sleepers) once

      apart_false : (q : Ptr) → p ≢ q → (p == q) ≡ false
      apart_false q apart = ground (arith, apart)

      self_true : (p == p) ≡ true
      self_true = ground arith

      -- The current thread waits behind the others.
      pub joined-Becomes :
          Becomes
            (record shown { waiting = shown.waiting ++ k.curthread ∷ [] })
            (λ q. show sleeping q (table q) (some grown))
      joined-Becomes q =
          becomes sleeping table s grown found (λ r apart. refl)
            (λ r apart. joined r ∙ rw (apart_false r apart) refl) q
          ∙ ap
              (λ w.
                if p == q then some (record { value = value s; waiting = w }) else seen table k q)
              (joined p ∙ rw self_true refl)
