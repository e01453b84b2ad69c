-- ===== src/Tests/Exclusion.antt =====
-- Whole calls on semaphores, locks and condition variables, and steps of two threads on one lock.
use cse4300_project.Prelude.{◌≡◌, ◌≢◌, refl, arith, List, [], ◌∷◌, some}
use cse4300_project.Platform.{Ptr}
use cse4300_project.Kernel.{Kernel, Thread, ok}
use cse4300_project.Thread.Sleeping.{MaySwitch, asleep_on}
use cse4300_project.Synch.Semaphore.{asleep}
use cse4300_project.Synch.Cv.{cv_wait, cv_broadcast}
use cse4300_project.Synch.Balance.{SemSteps, takes, gives, Balanced, SemSteps-Balanced}
use cse4300_project.Synch.Runs.{AllWoken, MayWake, v_run-AllWoken, p_round_lem, acquire_round_lem}
use cse4300_project.Synch.Conditions.{Holds, freed, cv_broadcast-AllWoken, cv_wait-asleep}
use cse4300_project.Synch.Acquire.{masked}
use cse4300_project.Synch.Exclusion.{MaySleep, OtherSteps, acquires, next, stop, OtherSteps-owner}
use cse4300_project.Tests.Lists.{lists, lists_laws, machine, thread_at}
use cse4300_project.Tests.Synch.{may_wake, may_switch, semaphore, first_thread, lock}

holds : Holds lists_laws machine 20 lock
holds = record { real = ground arith; found = refl; mine = refl }

abbrev cv : Ptr
cv = 10

real : cv ≢ 0
real = ground arith

masked-MaySwitch : MaySwitch (masked lists_laws machine) first_thread
masked-MaySwitch = record { off = omega arith; running = ground arith; found = refl; magic = refl }

cv_broadcast-AllWoken_example :
    (b q : List Ptr) × (cv_broadcast 10 20 machine
      ≡ ok (tt, record machine { sleepers = some b; runqueue = q }))
    × AllWoken lists_laws 10 machine (2 ∷ 3 ∷ []) 3 b q
cv_broadcast-AllWoken_example =
    cv_broadcast-AllWoken lists_laws 10 20 machine lock (ground arith) holds (2 ∷ 3 ∷ []) 3 may_wake

cv_wait-asleep_example :
    (b q : List Ptr) × (cv_wait cv 20 machine
      ≡ ok (15, asleep_on cv (freed lists_laws cv 20 machine lock real holds b q) first_thread b))
    × AllWoken lists_laws 20 machine (2 ∷ 3 ∷ []) 3 b q
cv_wait-asleep_example =
    cv_wait-asleep lists_laws cv 20 machine lock real holds first_thread (2 ∷ 3 ∷ []) 3 may_wake
      masked-MaySwitch refl (omega arith)

-- Thread 4 runs, and thread 1 still owns the lock.
abbrev other_machine : Kernel
other_machine = record machine { curthread = 4 }

abbrev fourth_thread : Thread
fourth_thread = thread_at 0 4 0 []

other-MaySwitch : MaySwitch other_machine fourth_thread
other-MaySwitch = record { off = omega arith; running = ground arith; found = refl; magic = refl }

other-MaySleep : MaySleep other_machine fourth_thread (2 ∷ 3 ∷ [])
other-MaySleep = record { switch = other-MaySwitch; quiet = refl; array = refl; room = refl }

abbrev after_round : Kernel
after_round = asleep_on 20 other_machine fourth_thread (2 ∷ 3 ∷ [])

fourth_waits : OtherSteps 20 1 other_machine after_round
fourth_waits =
    next
      (acquires 15 fourth_thread (2 ∷ 3 ∷ []) asleep (ground arith) other-MaySleep (
        acquire_round_lem lists_laws 20 15 other_machine fourth_thread (2 ∷ 3 ∷ []) lock
          other-MaySwitch refl refl refl refl))
      stop

OtherSteps-owner_example : after_round.locks 20 ≡ some lock
OtherSteps-owner_example =
    OtherSteps-owner lists_laws 20 1 lock (ground arith) (ground arith) refl refl fourth_waits

may_sleep : MaySleep machine first_thread (2 ∷ 3 ∷ [])
may_sleep = record { switch = may_switch; quiet = refl; array = refl; room = refl }

-- Thread 1 finds the count 0 and sleeps, and thread 4 raises the count.
abbrev slept : Kernel
slept = asleep_on 10 machine first_thread (2 ∷ 3 ∷ [])

slept-MayWake : MayWake lists_laws slept (2 ∷ 3 ∷ 1 ∷ []) 3
slept-MayWake = record {
  array = refl;
  valid = ((_, refl), ((_, refl), ((_, refl), tt)));
  slots = tt;
  room = tt;
  fits = omega arith;
}

abbrev given : (k' : Kernel) × SemSteps lists_laws 10 machine 0 1 k'
given =
    let (b, q, run, _) =
      v_run-AllWoken lists_laws 10 slept (2 ∷ 3 ∷ 1 ∷ []) 3 semaphore slept-MayWake (ground arith)
        refl refl in
    (
      _,
      SemSteps.next
          (takes 15 first_thread (2 ∷ 3 ∷ []) asleep may_sleep (
            p_round_lem lists_laws 10 15 machine first_thread (2 ∷ 3 ∷ []) semaphore may_switch refl
              refl refl refl (omega arith)))
          (SemSteps.next (gives (2 ∷ 3 ∷ 1 ∷ []) 3 slept-MayWake run) SemSteps.stop),
    )

SemSteps-Balanced_example : Balanced lists_laws 10 semaphore 0 1 given.0
SemSteps-Balanced_example =
    SemSteps-Balanced lists_laws 10 semaphore (ground arith) refl (omega arith) given.1
