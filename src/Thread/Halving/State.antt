-- ===== src/Thread/Halving/State.antt =====
-- What stays true between two rounds of the loop of thread_exit over the children.
use cse4300_project.Prelude.{
  ℕ, ◌+◌, ◌≤◌, ◌≡◌, ◌≢◌, refl, ap, true, false, List, none, some, arith, ◌==◌, length, inl, inr,
  Bool-cases,
}
use cse4300_project.Platform.{Ptr, Platform, Laws}
use cse4300_project.Kernel.{Kernel, Thread}
use cse4300_project.Thread.Population.{occurrences}
use cse4300_project.Thread.Joining.{CanSearch}
use cse4300_project.Thread.Attached.{IsDistinct}
use cse4300_project.Thread.Halving.{
  IsAttached, AreAttached, attached_at, AreWhole-members, after, left, after-current,
  AreWhole-after,
}

module _ ⦃os : Platform⦄ (laws : Laws os) {k : Kernel} {cur : Thread} {ch s z j : os.Arr}
    (can : CanSearch laws k cur ch s z j) where
  open laws use {view}

  module _ (attached : AreAttached k.threads cur.t_pid.value k.curthread (view ch))
      (distinct : IsDistinct (view ch)) where
    -- Each child is in one of the two lists, half of them so far.
    pub record Looping (a : os.Arr) (gone : List Ptr) (i : ℕ) : Type 0 where
      pub split : (p : Ptr) → occurrences p (view a) + occurrences p gone ≡ occurrences p (view ch)
      pub size : length (view a) + i ≡ length (view ch)
      pub behind : i ≤ length (view a) + 1

    module _ (a : os.Arr) (gone : List Ptr) (i : ℕ) (st : Looping a gone i) where
      pub still :
          (p : Ptr)
          → occurrences p (view a) ≢ 0
          → IsAttached k.threads cur.t_pid.value k.curthread p
            × (after laws can a gone p ≡ k.threads p)
            × (occurrences p gone ≡ 0)
      still p h = (att, rw (other, gone_not) refl, none_gone)
        where
          none_gone : occurrences p gone ≡ 0
          none_gone = omega (arith, st.split p, distinct p, h)

          gone_not : (occurrences p gone == 0) ≡ true
          gone_not = ground (arith, none_gone)

          att : IsAttached k.threads cur.t_pid.value k.curthread p
          att =
              attached_at k.threads cur.t_pid.value k.curthread (view ch) p attached
                (λ e. h (omega (arith, e, st.split p)))

          other : (p == k.curthread) ≡ false
          other = ground (arith, att.apart)

      pub running_after :
          after laws can a gone k.curthread ≡ some (record cur { children = some a })
      running_after = after-current laws can a gone

      null_after : after laws can a gone 0 ≡ none
      null_after = elim (Bool-cases (0 == k.curthread)) [
        | inl here ↦ let same : 0 ≡ k.curthread = ground arith in absurd (some_null same)
        | inr there ↦ elim (Bool-cases (occurrences 0 gone == 0)) [
          | inl kept ↦ rw (there, kept) can.null
          | inr out ↦ rw (there, out, can.null) refl
        ]
      ]
        where
          some_null : 0 ≡ k.curthread → ⊥
          some_null e = cc (can.running, can.null, ap k.threads e)

      pub can_go_on :
          CanSearch laws (left laws can a gone) (record cur { children = some a }) a s z j
      can_go_on = record {
        running = running_after;
        null = null_after;
        whole = record {
          pid_live = can.whole.pid_live;
          parent_live = can.whole.parent_live;
          exit_live = can.whole.exit_live;
          detached_live = can.whole.detached_live;
          exited_live = can.whole.exited_live;
        };
        children = refl;
        sleepers = can.sleepers;
        zombies = can.zombies;
        joinable = can.joinable;
        whole_children = AreWhole-after laws can a gone (view a) (
            AreWhole-members k.threads (view a)
              λ p h. let (att, _, _) = still p h in (att.thread, att.found, att.whole));
        whole_sleepers = AreWhole-after laws can a gone (view s) can.whole_sleepers;
        whole_zombies = AreWhole-after laws can a gone (view z) can.whole_zombies;
        whole_joinable = AreWhole-after laws can a gone (view j) can.whole_joinable;
      }
