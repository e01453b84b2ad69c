-- ===== src/Thread/Halving/Released.antt =====
-- What thread_exit gives back before its loop: the address space and the working directory.
use cse4300_project.Prelude.{
  ℕ, ◌≡◌, refl, ap, sym, ◌∙◌, true, false, List, [], ◌∷◌, Option, some, none, arith, ◌==◌,
  if◌then◌else◌, inl, inr, Bool-cases,
}
use mathlib.Core.Path.{fun_ext, ap₂}
use cse4300_project.Platform.{Ptr, Platform, Laws, Log, as_destroy_call, vop_decref_call}
use cse4300_project.Kernel.{Kernel, Thread, ok, update, Result}
use cse4300_project.Thread.Search.{IsWhole, AreWhole}
use cse4300_project.Thread.Joining.{CanSearch}
use cse4300_project.Thread.Exit.{release_resources}
use cse4300_project.Thread.Halving.{AreAttached}

module _ ⦃os : Platform⦄ where
  -- The thread has neither an address space nor a working directory.
  abbrev pub bare : Thread → Thread
  bare t = record t { t_vmspace = 0; t_cwd = 0 }

  abbrev pub released : Kernel → Thread → Kernel
  released k cur = record k {
    threads = update k.threads k.curthread (some (bare cur));
    log =
        (let log' = if cur.t_vmspace == 0 then k.log else as_destroy_call cur.t_vmspace ∷ k.log in
          if cur.t_cwd == 0 then log' else vop_decref_call cur.t_cwd ∷ log');
  }

  update_same :
      (f : Ptr → Option Thread) (p : Ptr) (t : Thread) → f p ≡ some t → update f p (some t) ≡ f
  update_same f p t e = fun_ext same
    where
      same : (q : Ptr) → update f p (some t) q ≡ f q
      same q = elim (Bool-cases (p == q)) [
        | inl here ↦ let e' : p ≡ q = ground arith in rw here (sym (rw e' at e))
        | inr there ↦ rw there refl
      ]

  update_twice :
      (f : Ptr → Option Thread) (p : Ptr) (t u : Thread)
      → update (update f p (some t)) p (some u) ≡ update f p (some u)
  update_twice f p t u = fun_ext same
    where
      same : (q : Ptr) → update (update f p (some t)) p (some u) q ≡ update f p (some u) q
      same q = elim (Bool-cases (p == q)) [ inl here ↦ rw here refl | inr there ↦ rw there refl ]

  abbrev ends_with : Kernel → (Ptr → Option Thread) → Log → Result (Unit {0} × Kernel)
  ends_with k th log = ok (tt, record k { threads = th; log = log })

  module _ (k : Kernel) (cur : Thread) (running : k.threads k.curthread ≡ some cur) where
    release_resources-no_space :
        (cur.t_vmspace == 0) ≡ true → release_resources k ≡ ok (tt, released k cur)
    unfolding release_resources
    release_resources-no_space no_space = elim (Bool-cases (cur.t_cwd == 0)) [
      | inl no_cwd ↦
          let same : cur ≡ bare cur =
            ap₂ (λ v c. record cur { t_vmspace = v; t_cwd = c }) (ground arith) (ground arith) in
          let raw : release_resources k ≡ ends_with k k.threads k.log = ground (arith, running) in
          raw
          ∙ rw (no_space, no_cwd)
              (ap (λ th. ends_with k th k.log)
                (sym (update_same k.threads k.curthread cur running)
                  ∙ ap (λ t. update k.threads k.curthread (some t)) same))
      | inr cwd ↦
          let log' = vop_decref_call cur.t_cwd ∷ k.log in
          let same : record cur { t_cwd = 0 } ≡ bare cur =
            ap (λ v. record cur { t_vmspace = v; t_cwd = 0 }) (ground arith) in
          let raw : release_resources k
              ≡ ends_with k (update k.threads k.curthread (some (record cur { t_cwd = 0 }))) log' =
            ground (arith, running) in
          raw
          ∙ rw (no_space, cwd)
              (ap (λ t. ends_with k (update k.threads k.curthread (some t)) log') same)
    ]

    release_resources-space :
        (cur.t_vmspace == 0) ≡ false → release_resources k ≡ ok (tt, released k cur)
    unfolding release_resources
    release_resources-space space = elim (Bool-cases (cur.t_cwd == 0)) [
      | inl no_cwd ↦
          let log' = as_destroy_call cur.t_vmspace ∷ k.log in
          let same : record cur { t_vmspace = 0 } ≡ bare cur =
            ap (λ c. record cur { t_vmspace = 0; t_cwd = c }) (ground arith) in
          let raw : release_resources k
              ≡ ends_with k (update k.threads k.curthread (some (record cur { t_vmspace = 0 })))
                  log' =
            ground (arith, running) in
          raw
          ∙ rw (space, no_cwd)
              (ap (λ t. ends_with k (update k.threads k.curthread (some t)) log') same)
      | inr cwd ↦
          let log' = vop_decref_call cur.t_cwd ∷ as_destroy_call cur.t_vmspace ∷ k.log in
          let first = record cur { t_vmspace = 0 } in
          let raw : release_resources k
              ≡ ends_with k
                  (update (update k.threads k.curthread (some first)) k.curthread (some (bare cur)))
                  log' =
            ground (arith, running) in
          raw
          ∙ rw (space, cwd)
              (ap (λ th. ends_with k th log') (update_twice k.threads k.curthread first (bare cur)))
    ]

    pub release_resources_lem : release_resources k ≡ ok (tt, released k cur)
    release_resources_lem = elim (Bool-cases (cur.t_vmspace == 0)) [
      | inl no_space ↦ release_resources-no_space no_space
      | inr space ↦ release_resources-space space
    ]

  AreWhole-update :
      (threads : Ptr → Option Thread) (p : Ptr) (t : Thread) (xs : List Ptr)
      → IsWhole t
      → AreWhole threads xs
      → AreWhole (update threads p (some t)) xs
  AreWhole-update threads p t [] w v = tt
  AreWhole-update threads p t (x ∷ xs) w (one, v) = (
    elim (Bool-cases (p == x)) [
      | inl here ↦ (t, rw here refl, w)
      | inr there ↦ (one.0, rw there (one.1), one.2)
    ],
    AreWhole-update threads p t xs w v,
  )

  pub released-AreAttached :
      (k : Kernel) (cur : Thread) (mine : ℕ) (xs : List Ptr)
      → AreAttached k.threads mine k.curthread xs
      → AreAttached (released k cur).threads mine k.curthread xs
  released-AreAttached k cur mine [] v = tt
  released-AreAttached k cur mine (x ∷ xs) (one, v) = (
    record {
      thread = one.thread;
      found =
          (let other : (k.curthread == x) ≡ false = ground (arith, one.apart) in
            rw other one.found);
      whole = one.whole;
      flag = one.flag;
      of_parent = one.of_parent;
      apart = one.apart;
    },
    released-AreAttached k cur mine xs v,
  )

module _ ⦃os : Platform⦄ (laws : Laws os) {k : Kernel} {cur : Thread} {ch s z j : os.Arr}
    (can : CanSearch laws k cur ch s z j) where
  bare-IsWhole : IsWhole (bare cur)
  bare-IsWhole = record {
    pid_live = can.whole.pid_live;
    parent_live = can.whole.parent_live;
    exit_live = can.whole.exit_live;
    detached_live = can.whole.detached_live;
    exited_live = can.whole.exited_live;
  }

  still_null : (released k cur).threads 0 ≡ none
  still_null = elim (Bool-cases (k.curthread == 0)) [
    | inl here ↦ let same : k.curthread ≡ 0 = ground arith in absurd (some_null same)
    | inr there ↦ rw there can.null
  ]
    where
      some_null : k.curthread ≡ 0 → ⊥
      some_null e = cc (can.running, can.null, ap k.threads e)

  -- The current thread and its children can be searched as before.
  pub released-CanSearch : CanSearch laws (released k cur) (bare cur) ch s z j
  released-CanSearch = record {
    running = (let self : (k.curthread == k.curthread) ≡ true = ground arith in rw self refl);
    null = still_null;
    whole = bare-IsWhole;
    children = can.children;
    sleepers = can.sleepers;
    zombies = can.zombies;
    joinable = can.joinable;
    whole_children =
        AreWhole-update k.threads k.curthread (bare cur) _ bare-IsWhole can.whole_children;
    whole_sleepers =
        AreWhole-update k.threads k.curthread (bare cur) _ bare-IsWhole can.whole_sleepers;
    whole_zombies =
        AreWhole-update k.threads k.curthread (bare cur) _ bare-IsWhole can.whole_zombies;
    whole_joinable =
        AreWhole-update k.threads k.curthread (bare cur) _ bare-IsWhole can.whole_joinable;
  }
