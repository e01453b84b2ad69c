-- ===== src/Synch/Balance.antt =====
-- What a sequence of steps of several threads does to one semaphore of synch.c.
use cse4300_project.Prelude.{
  ℕ, ◌+◌, ◌-◌, ◌^◌, ◌<◌, ◌≡◌, ◌≢◌, refl, sym, ap, ◌∙◌, false, some, arith, ◌==◌, if◌then◌else◌, inl,
  inr, Bool-cases,
}
use cse4300_project.Platform.{Ptr, Platform, Laws}
use cse4300_project.Kernel.{
  Kernel, Thread, Semaphore, Result, ok, fault, assertion, int32, is_positive,
}
use cse4300_project.Thread.Sleeping.{asleep_on}
use cse4300_project.Synch.Semaphore.{Outcome, asleep, returned, p_round, v_run}
use cse4300_project.Synch.Runs.{MayWake, v_run-AllWoken, p_round_lem, taken}
use cse4300_project.Synch.Exclusion.{MaySleep, same_end}

-- How many a round of P has taken.
abbrev pub taken_by : Outcome → ℕ
taken_by asleep = 0
taken_by returned = 1

module _ ⦃os : Platform⦄ (laws : Laws os) where
  -- A step of any thread, with what it has taken from the semaphore and given to it: a round of P, a
  -- V that returns, or work that leaves the semaphores alone, such as a switch to any thread.
  pub data SemStep (sem : Ptr) : Kernel → ℕ → ℕ → Kernel → Type 0 where
    takes :
        {k k' : Kernel} (spl : ℕ) (t : Thread) (a : os.Arr) (r : Outcome)
        → MaySleep k t a
        → p_round sem spl k ≡ ok (r, k')
        → SemStep sem k (taken_by r) 0 k'
    gives :
        {k k' : Kernel} (a : os.Arr) (n : ℕ)
        → MayWake laws k a n
        → v_run sem k ≡ ok (tt, k')
        → SemStep sem k 0 1 k'
    elsewhere : {k k' : Kernel} → k'.semaphores ≡ k.semaphores → SemStep sem k 0 0 k'

  pub data SemSteps (sem : Ptr) : Kernel → ℕ → ℕ → Kernel → Type 0 where
    stop : {k : Kernel} → SemSteps sem k 0 0 k
    next :
        {k k' k'' : Kernel} {p v p' v' : ℕ}
        → SemStep sem k p v k'
        → SemSteps sem k' p' v' k''
        → SemSteps sem k (p + p') (v + v') k''

  -- The semaphore after steps that have taken `p` and given `v`.
  abbrev pub Balanced : Ptr → Semaphore → ℕ → ℕ → Kernel → Type 0
  Balanced sem s p v k' =
      (s' : Semaphore) × (k'.semaphores sem ≡ some s')
      × (s'.count + p ≡ s.count + v)
      × (s'.count < 2 ^ 31)

  v_run-overflow :
      (sem : Ptr) (k : Kernel) (s : Semaphore)
      → sem ≢ 0
      → k.semaphores sem ≡ some s
      → is_positive (int32 (s.count + 1)) ≡ false
      → v_run sem k ≡ fault assertion
  unfolding v_run
  v_run-overflow sem k s real found over = ground (arith, found)

  SemStep-Balanced :
      (sem : Ptr) (s : Semaphore) {k k' : Kernel} {p v : ℕ}
      → sem ≢ 0
      → k.semaphores sem ≡ some s
      → s.count < 2 ^ 31
      → SemStep sem k p v k'
      → Balanced sem s p v k'
  SemStep-Balanced sem s {k} {k'} real found fits (elsewhere e) =
      (s, ap (λ f. f sem) e ∙ found, omega arith, fits)
  SemStep-Balanced sem s {k} {k'} real found fits (gives a n m run) =
      elim (Bool-cases (is_positive (int32 (s.count + 1)))) [
        | inl pos ↦
            let (b, q, run', _) = v_run-AllWoken laws sem k a n s m real found pos in
            let (_, same) = same_end (sym run' ∙ run) in
            (
              record s { count = int32 (s.count + 1) },
              sym (ap (λ (x : Kernel). x.semaphores sem) same) ∙ ground arith,
              omega (arith, fits),
              ground (arith, pos),
            )
        | inr over ↦
            let refused : v_run sem k ≡ fault assertion = v_run-overflow sem k s real found over in
            absurd cc
      ]
  SemStep-Balanced sem s {k} {k'} real found fits (takes spl t a r m run) =
      elim (Bool-cases (s.count == 0)) [
        | inl empty ↦
            let e : ◌≡◌ {A = Result (Outcome × Kernel)} (ok (asleep, asleep_on sem k t a))
                (ok (r, k')) =
              sym (round ∙ rw empty refl) ∙ run in
            let (outcome, same) = same_end e in
            (
              s,
              sym (ap (λ (x : Kernel). x.semaphores sem) same) ∙ found,
              omega (arith, ap taken_by outcome),
              fits,
            )
        | inr left ↦
            let e : ◌≡◌ {A = Result (Outcome × Kernel)} (ok (returned, taken laws sem spl k s))
                (ok (r, k')) =
              sym (round ∙ rw left refl) ∙ run in
            let (outcome, same) = same_end e in
            let some_left : 0 < s.count = ground (arith, left) in
            (
              record s { count = s.count - 1 },
              sym (ap (λ (x : Kernel). x.semaphores sem) same) ∙ ground arith,
              omega (arith, ap taken_by outcome, some_left),
              omega (arith, fits),
            )
      ]
    where
      round : p_round sem spl k ≡ (
          if s.count == 0
          then ok (asleep, asleep_on sem k t a)
          else ok (returned, taken laws sem spl k s))
      round = p_round_lem laws sem spl k t a s m.switch m.quiet m.array m.room found fits

  -- The count of a semaphore is never wrong: after any sequence of steps of any threads, the count
  -- and the number of rounds of P that have returned make up the count at the start and the number
  -- of V that have returned, and it is no negative int; so no more P return than the count at the
  -- start and the V allow. A step is a round of P on the semaphore by a thread that may sleep, a V
  -- on it that returns while the sleepers may be woken, or work that leaves the table of
  -- semaphores alone. Conditions: the semaphore is not NULL and allocated, and its count at the
  -- start is no negative int.
  pub SemSteps-Balanced :
      (sem : Ptr) (s : Semaphore) {k k' : Kernel} {p v : ℕ}
      → sem ≢ 0
      → k.semaphores sem ≡ some s
      → s.count < 2 ^ 31
      → SemSteps sem k p v k'
      → Balanced sem s p v k'
  SemSteps-Balanced sem s real found fits stop = (s, found, refl, fits)
  SemSteps-Balanced sem s real found fits (next step steps) =
      let (s', found', e, fits') = SemStep-Balanced sem s real found fits step in
      let (s'', found'', e', fits'') = SemSteps-Balanced sem s' real found' fits' steps in
      (s'', found'', omega (arith, e, e'), fits'')
