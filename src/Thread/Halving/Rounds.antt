-- ===== src/Thread/Halving/Rounds.antt =====
-- One round of the loop of thread_exit over the children.
use cse4300_project.Prelude.{
  ℕ, suc, ◌+◌, ◌<◌, ◌≡◌, ◌≢◌, refl, ap, sym, ◌∙◌, true, false, ◌&&◌, List, [], ◌∷◌, Option, none,
  some, arith, ltb, ◌==◌, length, get_elem?, inl, inr, Bool-cases,
}
use mathlib.Core.Path.{fun_ext}
use cse4300_project.Platform.{Ptr, Platform, Laws, remove_at}
use cse4300_project.Kernel.{Kernel, Thread, ok}
use cse4300_project.Thread.Join.{Child, thread_detach}
use cse4300_project.Thread.Population.{occurrences}
use cse4300_project.Thread.Search.{is_child_at}
use cse4300_project.Thread.Joining.{CanSearch, child}
use cse4300_project.Thread.Detaching.{detached, thread_detach_lem, detach_expected}
use cse4300_project.Thread.Attached.{
  IsDistinct, last_match-IsPlaced, last_match-some, get_elem?-in_range, length-remove_at,
  occurrences-remove_at,
}
use cse4300_project.Thread.Exit.{detach_loop}
use cse4300_project.Thread.Halving.{IsAttached, AreAttached, after, left}
use cse4300_project.Thread.Halving.State.{Looping, still, can_go_on, running_after}

module _ ⦃os : Platform⦄ (laws : Laws os) {k : Kernel} {cur : Thread} {ch s z j : os.Arr}
    (can : CanSearch laws k cur ch s z j) where
  open laws use {view}

  module _ (attached : AreAttached k.threads cur.t_pid.value k.curthread (view ch))
      (distinct : IsDistinct (view ch)) where
    module _ (a : os.Arr) (gone : List Ptr) (i : ℕ)
        (st : Looping laws can attached distinct a gone i) where
      module _ (x : Ptr) (here : get_elem? (view a) i ≡ some x) where
        get_elem?-member :
            (p : Ptr) (m : ℕ) → get_elem? (view a) m ≡ some p → occurrences p (view a) ≢ 0
        get_elem?-member p m e zero_p =
            let self : (p == p) ≡ true = ground arith in
            absurd (omega (arith, rw self at (occurrences-remove_at p (view a) m p e), zero_p))

        x_still :
            IsAttached k.threads cur.t_pid.value k.curthread x
            × (after laws can a gone x ≡ k.threads x)
            × (occurrences x gone ≡ 0)
        x_still = (still laws can attached distinct a gone i st) x (get_elem?-member x i here)

        abbrev child_pid : ℕ
        child_pid = x_still.0.thread.t_pid.value

        x_is_child : is_child_at (after laws can a gone) cur.t_pid.value child_pid x ≡ true
        x_is_child =
            ap
              (λ o. elim o [
                | none ↦ false
                | some t ↦ (t.t_pid.value == child_pid) && (t.parent.value == cur.t_pid.value)
              ])
              (x_still.1 ∙ x_still.0.found)
            ∙ ground (arith, x_still.0.of_parent)

        x_found :
            (c : Child) × (child laws
                (left laws can a gone)
                (record cur { children = some a })
                a
                child_pid
              ≡ some c)
        x_found =
            last_match-some (is_child_at (after laws can a gone) cur.t_pid.value child_pid) (view a)
              0 i x none here x_is_child

        abbrev c : Child
        c = x_found.0

        c_placed : get_elem? (view a) c.index ≡ some c.at
        c_placed = rw (x_found.1) at (
            last_match-IsPlaced (is_child_at (after laws can a gone) cur.t_pid.value child_pid) []
              (view a) 0 none refl tt)

        c_still :
            IsAttached k.threads cur.t_pid.value k.curthread c.at
            × (after laws can a gone c.at ≡ k.threads c.at)
            × (occurrences c.at gone ≡ 0)
        c_still =
            (still laws can attached distinct a gone i st) c.at
              (get_elem?-member c.at c.index c_placed)

        left-detached :
            detached laws (can_go_on laws can attached distinct a gone i st) c c_still.0.thread
            ≡ left laws can (os.array_remove a c.index) (c.at ∷ gone)
        left-detached = ap (λ th. record k { threads = th }) (fun_ext same)
          where
            same :
                (q : Ptr)
                → (detached laws
                      (can_go_on laws can attached distinct a gone i st)
                      c
                      c_still.0.thread).threads
                    q
                  ≡ after laws can (os.array_remove a c.index) (c.at ∷ gone) q
            same q = elim (Bool-cases (c.at == q)) [
              | inl hit ↦
                  let e : c.at ≡ q = ground arith in
                  let not_cur : (q == k.curthread) ≡ false = ground (arith, c_still.0.apart) in
                  let back : (q == c.at) ≡ true = ground arith in
                  let u : k.threads q ≡ some c_still.0.thread = rw (← e) c_still.0.found in
                  rw (hit, not_cur, back, u) (ground arith)
              | inr miss ↦
                  let back : (q == c.at) ≡ false = ground arith in rw (miss, back) (ground arith)
            ]

        detach_once :
            thread_detach child_pid (left laws can a gone)
            ≡ ok (0, left laws can (os.array_remove a c.index) (c.at ∷ gone))
        detach_once =
            thread_detach_lem laws (can_go_on laws can attached distinct a gone i st) child_pid
              (λ c' e.
                let at_same : c.at ≡ c'.at =
                  ap (λ (o : Option Child). elim o [ none ↦ 0 | some d ↦ d.at ])
                    (sym x_found.1 ∙ e) in
                rw (← at_same) c_still.0.apart)
            ∙ rw (x_found.1, detach_expected)
                (rw (c_still.1 ∙ c_still.0.found)
                  (rw c_still.0.flag (ap (λ k'. ok (0, k')) left-detached)))

        Looping-next :
            Looping laws can attached distinct (os.array_remove a c.index) (c.at ∷ gone) (i + 1)
        Looping-next = record {
          split = λ p.
              rw removed
                (omega (arith, occurrences-remove_at p (view a) c.index c.at c_placed, st.split p));
          size = rw removed (omega (arith, shorter, st.size));
          behind = rw removed (omega (arith, shorter, get_elem?-in_range (view a) i x here));
        }
          where
            in_range : c.index < length (view a)
            in_range = get_elem?-in_range (view a) c.index c.at c_placed

            removed : view (os.array_remove a c.index) ≡ remove_at (view a) c.index
            removed = laws.remove-view a c.index in_range

            shorter : length (remove_at (view a) c.index) + 1 ≡ length (view a)
            shorter = length-remove_at (view a) c.index in_range

        detach_loop-round :
            (fuel : ℕ)
            → os.array_getguy a i ≡ x
            → ltb i (os.array_getnum a) ≡ true
            → detach_loop (suc fuel) i (left laws can a gone)
              ≡ detach_loop fuel (i + 1) (left laws can (os.array_remove a c.index) (c.at ∷ gone))
        unfolding detach_loop
        detach_loop-round fuel at_x more = ground (
          arith,
          (running_after laws can attached distinct a gone i st),
          x_still.1,
          x_still.0.found,
          x_still.0.whole.pid_live,
          detach_once,
        )

      -- A round that takes one child out.
      pub detach_loop-next :
          i < length (view a)
          → (a' : os.Arr) × (gone' : List Ptr) × Looping laws can attached distinct a' gone' (i + 1)
            × ((fuel : ℕ)
                → detach_loop (suc fuel) i (left laws can a gone)
                  ≡ detach_loop fuel (i + 1) (left laws can a' gone'))
      detach_loop-next less =
          let x = os.array_getguy a i in
          let here = laws.getguy-view a i less in
          let found = x_found x here in
          (
            os.array_remove a found.0.index,
            found.0.at ∷ gone,
            Looping-next x here,
            λ fuel. detach_loop-round x here fuel refl (ground (arith, laws.getnum-view a)),
          )

      pub detach_loop-end :
          (fuel : ℕ)
          → ltb i (os.array_getnum a) ≡ false
          → detach_loop (suc fuel) i (left laws can a gone) ≡ ok (tt, left laws can a gone)
      unfolding detach_loop
      detach_loop-end fuel done =
          ground (arith, (running_after laws can attached distinct a gone i st))
