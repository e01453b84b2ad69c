-- ===== src/Tests/Burial.antt =====
-- The concrete kernel with two dead threads.
use cse4300_project.Prelude.{◌≡◌, refl, arith, List, [], ◌∷◌, some}
use cse4300_project.Platform.{Ptr, Log}
use cse4300_project.Kernel.{Kernel, ok}
use cse4300_project.Thread.Switch.{exorcise}
use cse4300_project.Thread.Burial.{IsDead, AreDead, buried, exorcise-buried}
use cse4300_project.Tests.Lists.{lists, lists_laws, machine, thread_at}

abbrev graveyard : Kernel
graveyard = record machine { zombies = some (3 ∷ 4 ∷ []) }

third-IsDead : IsDead graveyard.threads 1 3
third-IsDead = record {
  thread = thread_at 20 2 1 [];
  other = ground arith;
  found = refl;
  spaceless = refl;
  placeless = refl;
}

zombies-AreDead : AreDead graveyard.threads 1 (3 ∷ 4 ∷ [])
zombies-AreDead = (
  third-IsDead,
  (
    record {
      thread = thread_at 0 4 0 [];
      other = ground arith;
      found = refl;
      spaceless = refl;
      placeless = refl;
    },
    tt,
  ),
)

exorcise-buried_example :
    (z : List Ptr) × (log : Log) × (exorcise graveyard
      ≡ ok (
        tt,
        record graveyard {
          threads = buried (3 ∷ 4 ∷ []) graveyard.threads;
          zombies = some z;
          log = log;
        },
      ))
    × (z ≡ [])
exorcise-buried_example =
    exorcise-buried lists_laws graveyard (3 ∷ 4 ∷ []) (omega arith) refl zombies-AreDead
