-- ===== src/Tests/Synch.antt =====
-- The sleep queue, semaphores and locks on the concrete kernel.
use cse4300_project.Prelude.{◌≡◌, refl, arith, List, [], ◌∷◌, some}
use cse4300_project.Platform.{Ptr}
use cse4300_project.Kernel.{Thread, Semaphore, Lock, ok}
use cse4300_project.Thread.Sleep.{thread_wakeup, thread_wakeone}
use cse4300_project.Thread.Wakeup.{Woken, thread_wakeup-Woken}
use cse4300_project.Thread.Signal.{thread_wakeone-drops}
use cse4300_project.Thread.Sleeping.{MaySwitch}
use cse4300_project.Synch.Runs.{MayWake}
use cse4300_project.Synch.Waiting.{NoLostWakeup}
use cse4300_project.Tests.Lists.{lists, lists_laws, machine, thread_at}

abbrev pub first_thread : Thread
first_thread = thread_at 0 1 0 (2 ∷ 3 ∷ [])

abbrev pub semaphore : Semaphore
semaphore = record { name = 401; count = 0 }

abbrev pub lock : Lock
lock = record { name = 402; owner = 1 }

pub may_switch : MaySwitch machine first_thread
may_switch = record { off = omega arith; running = ground arith; found = refl; magic = refl }

pub may_wake : MayWake lists_laws machine (2 ∷ 3 ∷ []) 3
may_wake = record {
  array = refl;
  valid = ((_, refl), ((_, refl), tt));
  slots = tt;
  room = tt;
  fits = omega arith;
}

pub no_lost_wakeup : NoLostWakeup lists_laws machine
no_lost_wakeup = record {
  semaphores = λ p s e c. absurd (ground arith);
  locks = λ p l e o. absurd (ground arith);
}

thread_wakeup-Woken_example :
    Woken lists_laws 10 3 machine [] (2 ∷ 3 ∷ []) (thread_wakeup 10 machine)
thread_wakeup-Woken_example =
    thread_wakeup-Woken lists_laws 10 3 machine (2 ∷ 3 ∷ []) refl (omega arith)
      ((_, refl), ((_, refl), tt)) tt tt (omega arith)

thread_wakeone-drops_example :
    (s q : List Ptr) × (thread_wakeone 1 20 machine
      ≡ ok (tt, record machine { sleepers = some s; runqueue = q }))
    × (s ≡ 3 ∷ [])
    × (q ≡ 4 ∷ 3 ∷ [])
thread_wakeone-drops_example =
    thread_wakeone-drops lists_laws 20 0 2 machine (2 ∷ 3 ∷ []) 2 3 (3 ∷ []) (thread_at 20 2 1 [])
      (omega arith) refl refl refl refl refl tt (omega arith)
