-- ===== src/Synch/Waiting.antt =====
-- No lost wakeup: while nobody sleeps on a semaphore with a positive count or on a free lock, every
-- operation keeps it so.
pub mod Rounds
use cse4300_project.Prelude.{
  ℕ, ◌+◌, ◌-◌, ◌^◌, ◌<◌, ◌≡◌, ◌≢◌, refl, ◌∙◌, true, [], Option, none, some, arith, ◌==◌, inl, inr,
  ◌⊎◌, Bool-cases,
}
use cse4300_project.Platform.{Ptr, Platform, Laws}
use cse4300_project.Platform.Arrays.{select}
use cse4300_project.Kernel.{Kernel, Thread, Semaphore, Lock, ok, int32, is_positive, update, waits}
use cse4300_project.Thread.Sleeping.{MaySwitch, asleep_on}
use cse4300_project.Synch.Semaphore.{Outcome, asleep, returned, p_round, v_run}
use cse4300_project.Synch.Lock.{acquire_round, lock_release}
use cse4300_project.Synch.Runs.{
  MayWake, AllWoken, v_run-AllWoken, lock_release-AllWoken, p_round_lem, acquire_round_lem, taken,
  owned,
}
use cse4300_project.Synch.Sleepers.{select-reject, select-reject_other, select-asleep_at}

module _ ⦃os : Platform⦄ (laws : Laws os) where
  open laws use {view, HasSlots, queued}

  -- Nobody in `sleepers` sleeps on `p`.
  abbrev pub Quiet : Kernel → Ptr → Type 0
  Quiet k p = (a : os.Arr) → k.sleepers ≡ some a → select (waits k.threads p) (view a) ≡ []

  pub record NoLostWakeup (k : Kernel) : Type 0 where
    pub semaphores : (p : Ptr) (s : Semaphore) → k.semaphores p ≡ some s → s.count ≢ 0 → Quiet k p
    pub locks : (p : Ptr) (l : Lock) → k.locks p ≡ some l → l.owner ≡ 0 → Quiet k p

  -- A kernel that differs in its tables and in the sleepers that were woken on `addr`.
  pub Quiet-woken :
      (k : Kernel) (a b : os.Arr) (n : ℕ) (q : os.RunQueue) (addr p : Ptr)
      → k.sleepers ≡ some a
      → AllWoken laws addr k a n b q
      → (Quiet k p) ⊎ (addr ≡ p)
      → select (waits k.threads p) (view b) ≡ []
  Quiet-woken k a b n q addr p e w (inl quiet) =
      rw (w.0) (select-reject_other (waits k.threads addr) (waits k.threads p) (view a) (quiet a e))
  Quiet-woken k a b n q addr p e w (inr same) =
      rw (w.0) (rw (← same) (select-reject (waits k.threads addr) (view a)))

  -- An entry of an updated table is the new one or an old one.
  pub update_cases :
      {A : Type 0} (f : Ptr → Option A) (p q : Ptr) (v w : A)
      → update f p (some v) q ≡ some w
      → ((p ≡ q) × (v ≡ w)) ⊎ (f q ≡ some w)
  update_cases f p q v w e = elim (Bool-cases (p == q)) [
    | inl here ↦ inl (ground arith, ground arith)
    | inr there ↦ inr (ground arith)
  ]

  -- The sleepers on `addr` are woken and nothing is given to it.
  pub woken-NoLostWakeup :
      (addr : Ptr) (k : Kernel) (a b : os.Arr) (n : ℕ) (q : os.RunQueue)
      → NoLostWakeup k
      → k.sleepers ≡ some a
      → AllWoken laws addr k a n b q
      → NoLostWakeup (record k { sleepers = some b; runqueue = q })
  woken-NoLostWakeup addr k a b n q inv array woken = record {
    semaphores = λ p s e c b' eb.
        let same : b ≡ b' = cc in
        rw (← same) (Quiet-woken k a b n q addr p array woken (inl (inv.semaphores p s e c)));
    locks = λ p l e o b' eb.
        let same : b ≡ b' = cc in
        rw (← same) (Quiet-woken k a b n q addr p array woken (inl (inv.locks p l e o)));
  }

  -- The sleepers on a lock are woken, and its entry changes.
  pub freed-NoLostWakeup :
      (lock : Ptr) (k : Kernel) (a b : os.Arr) (n level : ℕ) (q : os.RunQueue) (l : Lock)
      → NoLostWakeup k
      → k.sleepers ≡ some a
      → AllWoken laws lock k a n b q
      → NoLostWakeup (record k {
        curspl = level;
        locks = update k.locks lock (some l);
        sleepers = some b;
        runqueue = q;
      })
  freed-NoLostWakeup lock k a b n level q l inv array woken = record {
    semaphores = (woken-NoLostWakeup lock k a b n q inv array woken).semaphores;
    locks = λ p l' e o b' eb.
        let same : b ≡ b' = cc in
        rw (← same) (
          Quiet-woken k a b n q lock p array woken (elim (update_cases k.locks lock p l l' e) [
            | inl (here, _) ↦ inr here
            | inr old ↦ inl (inv.locks p l' old o)
          ]));
  }

  -- V keeps the invariant that nobody sleeps on a semaphore with a positive count or on a lock
  -- without owner, and it returns. Conditions: the sleepers may be woken (they are threads, and
  -- the run queue has room), the semaphore is allocated, and its count stays positive as an int
  -- when it goes up.
  pub v_run-NoLostWakeup :
      (sem : Ptr) (k : Kernel) (a : os.Arr) (n : ℕ) (s : Semaphore)
      → NoLostWakeup k
      → MayWake laws k a n
      → sem ≢ 0
      → k.semaphores sem ≡ some s
      → is_positive (int32 (s.count + 1)) ≡ true
      → (k' : Kernel) × (v_run sem k ≡ ok (tt, k')) × NoLostWakeup k'
  v_run-NoLostWakeup sem k a n s inv m real found pos =
      let (b, q, run, woken) = v_run-AllWoken laws sem k a n s m real found pos in
      (
        _,
        run,
        record {
          semaphores = λ p s' e c b' eb.
              let same : b ≡ b' = cc in
              rw (← same) (
                Quiet-woken k a b n q sem p m.array woken
                  (elim (update_cases k.semaphores sem p _ s' e) [
                    | inl (here, _) ↦ inr here
                    | inr old ↦ inl (inv.semaphores p s' old c)
                  ]));
          locks = λ p l e o b' eb.
              let same : b ≡ b' = cc in
              rw (← same) (Quiet-woken k a b n q sem p m.array woken (inl (inv.locks p l e o)));
        },
      )

  -- Lock_release by the owner keeps the invariant that nobody sleeps on a semaphore with a
  -- positive count or on a lock without owner, and it returns. Conditions: the sleepers may be
  -- woken, and the lock is allocated.
  pub lock_release-NoLostWakeup :
      (lock : Ptr) (k : Kernel) (a : os.Arr) (n : ℕ) (l : Lock)
      → NoLostWakeup k
      → MayWake laws k a n
      → lock ≢ 0
      → k.locks lock ≡ some l
      → l.owner ≡ k.curthread
      → (k' : Kernel) × (lock_release lock k ≡ ok (tt, k')) × NoLostWakeup k'
  lock_release-NoLostWakeup lock k a n l inv m real found mine =
      let (b, q, run, woken) = lock_release-AllWoken laws lock k a n l m real found mine in
      (_, run, freed-NoLostWakeup lock k a b n k.curspl q _ inv m.array woken)
