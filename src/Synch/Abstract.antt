-- ===== src/Synch/Abstract.antt =====
-- A semaphore and a lock as what they promise: a number, which is the count or the owner, and the
-- threads that wait, in order.
use cse4300_project.Prelude.{
  ℕ, ◌+◌, ◌-◌, ◌≡◌, ◌≢◌, refl, ap, true, false, List, [], ◌∷◌, ◌++◌, Option, none, some, arith,
  ◌==◌, if◌then◌else◌, inl, inr, Bool-cases,
}
use cse4300_project.Platform.{Ptr, Platform}
use cse4300_project.Platform.Arrays.{select, reject}
use cse4300_project.Kernel.{Thread, waits}
use cse4300_project.Thread.Population.{occurrences}
use cse4300_project.Synch.Semaphore.{Outcome, asleep, returned}
use cse4300_project.Synch.Sleepers.{asleep_at}

-- A primitive, seen from outside.
pub record Primitive : Type 0 where
  pub value : ℕ
  pub waiting : List Ptr

abbrev waits_too : Ptr → Primitive → Outcome × Primitive
waits_too who s = (asleep, record s { waiting = s.waiting ++ who ∷ [] })

-- P by the thread `who`: one is taken, or the thread waits behind the others.
abbrev pub lower : Ptr → Primitive → Outcome × Primitive
lower who s = if s.value == 0 then waits_too who s else (returned, record s { value = s.value - 1 })

-- V: one more, and nobody waits any longer.
abbrev pub raise : Primitive → Primitive
raise s = record { value = s.value + 1; waiting = [] }

-- lock_acquire by a thread that does not own the lock: it gets the lock, or waits behind the others.
abbrev pub take : Ptr → Primitive → Outcome × Primitive
take who s = if s.value == 0 then (returned, record s { value = who }) else waits_too who s

-- lock_release: no owner, and nobody waits any longer.
abbrev pub give_up : Primitive → Primitive
give_up s = record { value = 0; waiting = [] }

-- A thread that is not in the list and goes to sleep.
module _ ⦃os : Platform⦄ where
  waits-asleep_at_other :
      (threads : Ptr → Option Thread) (cur addr q : Ptr) (t : Thread) (x : Ptr)
      → (cur == x) ≡ false
      → waits (asleep_at threads cur addr t) q x ≡ waits threads q x
  waits-asleep_at_other threads cur addr q t x apart = rw (apart, waits) refl

  waits-asleep_at_self :
      (threads : Ptr → Option Thread) (cur addr q : Ptr) (t : Thread)
      → waits (asleep_at threads cur addr t) q cur ≡ (addr == q)
  waits-asleep_at_self threads cur addr q t = ground arith

  pub select-joined :
      (threads : Ptr → Option Thread) (cur addr q : Ptr) (t : Thread) (xs : List Ptr)
      → occurrences cur xs ≡ 0
      → select (waits (asleep_at threads cur addr t) q) (xs ++ cur ∷ []) ≡ (
          if addr == q
          then select (waits threads q) xs ++ cur ∷ []
          else select (waits threads q) xs)
  select-joined threads cur addr q t [] once =
      rw (waits-asleep_at_self threads cur addr q t) (ground arith)
  select-joined threads cur addr q t (x ∷ xs) once =
      let rest = select-joined threads cur addr q t xs (ground (arith, once)) in
      rw (waits-asleep_at_other threads cur addr q t x (ground (arith, once)))
        (elim (Bool-cases (addr == q)) [
          | inl here ↦
              rw (rest, here)
                (elim (Bool-cases (waits threads q x)) [ inl w ↦ rw w refl | inr w ↦ rw w refl ])
          | inr there ↦ rw (rest, there) refl
        ])

  waits_apart :
      (threads : Ptr → Option Thread) (addr q : Ptr) (x : Ptr)
      → addr ≢ q
      → waits threads addr x ≡ true
      → waits threads q x ≡ false
  waits_apart threads addr q x apart hit = by_thread (threads x) hit
    where
      by_thread :
          (o : Option Thread)
          → (elim o [ none ↦ false | some t ↦ t.t_sleepaddr == addr ]) ≡ true
          → (elim o [ none ↦ false | some t ↦ t.t_sleepaddr == q ]) ≡ false
      by_thread none e = refl
      by_thread (some t) e = ground (arith, apart)

  -- Waking those on one address takes nobody off another.
  pub select-reject_apart :
      (threads : Ptr → Option Thread) (addr q : Ptr) (xs : List Ptr)
      → addr ≢ q
      → select (waits threads q) (reject (waits threads addr) xs) ≡ select (waits threads q) xs
  select-reject_apart threads addr q [] apart = refl
  select-reject_apart threads addr q (x ∷ xs) apart = elim (Bool-cases (waits threads addr x)) [
    | inl hit ↦
        rw (hit, waits_apart threads addr q x apart hit)
          (select-reject_apart threads addr q xs apart)
    | inr miss ↦ rw miss (
        ap (λ l. if waits threads q x then x ∷ l else l)
          (select-reject_apart threads addr q xs apart))
  ]
