-- ===== src/Thread/Halving.antt =====
-- What the loop of thread_exit over the children does to any number of them: the threads and the
-- children of the exiting thread on the way. Released is about what comes before the loop, Whole
-- about the call as a whole, Leaving about the healthy kernel that it leaves.
pub mod State
pub mod Rounds
pub mod Loop
pub mod Released
pub mod Whole
pub mod Leaving
use cse4300_project.Prelude.{
  ℕ, zero, suc, ◌+◌, ◌-◌, ◌/◌, ◌≤◌, ◌<◌, ◌≡◌, ◌≢◌, refl, ap, sym, ◌∙◌, Bool, true, false, ◌&&◌,
  List, [], ◌∷◌, Option, none, some, arith, ltb, ltb→lt, ◌==◌, if◌then◌else◌, length, get_elem?,
  inl, inr, Bool-cases,
}
use mathlib.Core.Path.{fun_ext}
use cse4300_project.Platform.{Ptr, Platform, Laws, remove_at}
use cse4300_project.Kernel.{Kernel, Thread, ok, update}
use cse4300_project.Thread.Join.{Child, thread_detach}
use cse4300_project.Thread.Population.{occurrences}
use cse4300_project.Thread.Search.{IsWhole, AreWhole, is_child_at}
use cse4300_project.Thread.Joining.{CanSearch, child}
use cse4300_project.Thread.Detaching.{detached, thread_detach_lem, detach_expected}
use cse4300_project.Thread.Attached.{
  IsDistinct, IsPlaced, last_match-IsPlaced, last_match-some, get_elem?-in_range, length-remove_at,
  occurrences-remove_at, IsDistinct-remove_at,
}
use cse4300_project.Thread.Exit.{detach_loop}

module _ ⦃os : Platform⦄ where
  -- The thread at `p` is a child of the thread with the pid `mine` at `parent`, and not detached.
  pub record IsAttached (threads : Ptr → Option Thread) (mine : ℕ) (parent p : Ptr) : Type 0 where
    pub thread : Thread
    pub found : threads p ≡ some thread
    pub whole : IsWhole thread
    pub flag : thread.is_detached.value ≡ 0
    pub of_parent : thread.parent.value ≡ mine
    pub apart : p ≢ parent

  abbrev pub AreAttached : (Ptr → Option Thread) → ℕ → Ptr → List Ptr → Type 0
  AreAttached threads mine parent [] = Unit
  AreAttached threads mine parent (p ∷ ps) =
      IsAttached threads mine parent p × AreAttached threads mine parent ps

  attached_at :
      (threads : Ptr → Option Thread) (mine : ℕ) (parent : Ptr) (xs : List Ptr) (p : Ptr)
      → AreAttached threads mine parent xs
      → occurrences p xs ≢ 0
      → IsAttached threads mine parent p
  attached_at threads mine parent [] p v h = absurd (omega (arith, h))
  attached_at threads mine parent (x ∷ xs) p v h = elim (Bool-cases (p == x)) [
    | inl here ↦ let same : x ≡ p = ground arith in rw same at (v.0)
    | inr there ↦ attached_at threads mine parent xs p v.1 (λ e. h (rw there (omega (arith, e))))
  ]

  AreWhole-members :
      (threads : Ptr → Option Thread) (xs : List Ptr)
      → ((p : Ptr) → occurrences p xs ≢ 0 → (t : Thread) × (threads p ≡ some t) × IsWhole t)
      → AreWhole threads xs
  AreWhole-members threads [] each = tt
  AreWhole-members threads (x ∷ xs) each = (
    each x (λ e. let self : (x == x) ≡ true = ground arith in absurd (omega (arith, rw self at e))),
    AreWhole-members threads xs (λ p h. each p (λ e. h (omega (arith, e)))),
  )

  abbrev pub marked : Option Thread → Option Thread
  marked none = none
  marked (some t) = some (record t { is_detached = record t.is_detached { value = 1 } })

module _ ⦃os : Platform⦄ (laws : Laws os) {k : Kernel} {cur : Thread} {ch s z j : os.Arr}
    (can : CanSearch laws k cur ch s z j) where
  open laws use {view}

  -- The current thread has the children `a`, the threads in `gone` are marked as detached, and the
  -- others are as they were.
  abbrev pub after : os.Arr → List Ptr → Ptr → Option Thread
  after a gone q =
      if q == k.curthread
      then some (record cur { children = some a })
      else if occurrences q gone == 0
      then k.threads q
      else marked (k.threads q)

  abbrev pub left : os.Arr → List Ptr → Kernel
  left a gone = record k { threads = after a gone }

  after_start : k ≡ left ch []
  after_start = ap (λ th. record k { threads = th }) (fun_ext same)
    where
      itself : cur ≡ record cur { children = some ch }
      itself = ap (λ c. record cur { children = c }) can.children

      same : (q : Ptr) → k.threads q ≡ after ch [] q
      same q = elim (Bool-cases (q == k.curthread)) [
        | inl here ↦
            let e : q ≡ k.curthread = ground arith in rw here (rw e (can.running ∙ ap some itself))
        | inr there ↦ rw there refl
      ]

  after-current :
      (a : os.Arr) (gone : List Ptr)
      → after a gone k.curthread ≡ some (record cur { children = some a })
  after-current a gone =
      let self : (k.curthread == k.curthread) ≡ true = ground arith in rw self refl

  IsWhole-after :
      (a : os.Arr) (gone : List Ptr) (q : Ptr) (t : Thread)
      → k.threads q ≡ some t
      → IsWhole t
      → (u : Thread) × (after a gone q ≡ some u) × IsWhole u
  IsWhole-after a gone q t e w = elim (Bool-cases (q == k.curthread)) [
    | inl here ↦ (
      record cur { children = some a },
      rw here refl,
      record {
        pid_live = can.whole.pid_live;
        parent_live = can.whole.parent_live;
        exit_live = can.whole.exit_live;
        detached_live = can.whole.detached_live;
        exited_live = can.whole.exited_live;
      },
    )
    | inr there ↦ elim (Bool-cases (occurrences q gone == 0)) [
      | inl kept ↦ (t, rw (there, kept) e, w)
      | inr out ↦ (
        record t { is_detached = record t.is_detached { value = 1 } },
        rw (there, out, e) refl,
        record {
          pid_live = w.pid_live;
          parent_live = w.parent_live;
          exit_live = w.exit_live;
          detached_live = w.detached_live;
          exited_live = w.exited_live;
        },
      )
    ]
  ]

  AreWhole-after :
      (a : os.Arr) (gone xs : List Ptr) → AreWhole k.threads xs → AreWhole (after a gone) xs
  AreWhole-after a gone [] v = tt
  AreWhole-after a gone (x ∷ xs) ((t, e, w), v) =
      (IsWhole-after a gone x t e w, AreWhole-after a gone xs v)
