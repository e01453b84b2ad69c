-- ===== src/Thread/Fairness.antt =====
-- How long a thread that is ready waits for its turn.
use cse4300_project.Prelude.{
  ℕ, suc, ◌+◌, ◌≤◌, ◌<◌, ◌≡◌, refl, sym, ap, ◌∙◌, List, [], ◌∷◌, ◌++◌, arith, length, ◌⊎◌, inl, inr,
}
use mathlib.Core.List.{append-nil, append_assoc}
use cse4300_project.Platform.{Ptr, Platform, Laws}
use cse4300_project.Kernel.{Kernel, Result, ok}
use cse4300_project.Thread.Switch.{thread_sleep, thread_yield}
use cse4300_project.Thread.Conservation.{Healthy, thread_sleep-Keeps}
use cse4300_project.Thread.Yielding.{thread_yield-Keeps}

module _ ⦃os : Platform⦄ (laws : Laws os) (n : ℕ) where
  open laws use {view, queued, HasRoom, HasSlots}

  -- `m` turns, each given up by a thread_yield or a thread_sleep, with any other work between them
  -- that keeps the kernel healthy and, like a thread_wakeup, only adds to the end of the run queue.
  pub data Turns (k : Kernel) : ℕ → Kernel → Type 0 where
    start : Turns k 0 k
    work :
        {m : ℕ} {k' k'' : Kernel} (more : List Ptr)
        → Turns k m k'
        → Healthy laws n k''
        → k''.curthread ≡ k'.curthread
        → queued k''.runqueue ≡ queued k'.runqueue ++ more
        → Turns k m k''
    yields :
        {m spl : ℕ} {k' k'' : Kernel}
        → Turns k m k'
        → thread_yield k' ≡ ok (spl, k'')
        → Turns k (suc m) k''
    sleeps :
        {m : ℕ} {k' k'' : Kernel} (addr : Ptr)
        → Turns k m k'
        → 0 < k'.curspl
        → k'.in_interrupt ≡ 0
        → thread_sleep addr k' ≡ ok (tt, k'')
        → Turns k (suc m) k''

  -- `p` stands in the run queue behind `i` others.
  abbrev pub Behind : ℕ → Ptr → Kernel → Type 0
  Behind i p k =
      (pre : List Ptr) × (post : List Ptr) × (queued k.runqueue ≡ pre ++ p ∷ post)
      × (length pre ≡ i)

  same_end :
      {A : Type 0} {a b : A} {k k' : Kernel}
      → ◌≡◌ {A = Result (A × Kernel)} (ok (a, k)) (ok (b, k'))
      → k ≡ k'
  same_end e = cc

  -- The current thread gave up its turn: the head of the run queue runs, and the others move up.
  abbrev Popped : Kernel → Kernel → Type 0
  Popped k k' =
      (x : Ptr) (xs : List Ptr)
      → queued k.runqueue ≡ x ∷ xs
      → Healthy laws n k'
        × (k'.curthread ≡ x)
        × (more : List Ptr) × (queued k'.runqueue ≡ xs ++ more)

  yield-Popped :
      {spl : ℕ} {k k' : Kernel} → Healthy laws n k → thread_yield k ≡ ok (spl, k') → Popped k k'
  yield-Popped {spl} {k} {k'} h run x xs e =
      let (k'', run', keeps, cur, rest) =
        thread_yield-Keeps laws n k h x (xs ++ k.curthread ∷ [])
          (ap (λ q. q ++ k.curthread ∷ []) e) in
      let same : k'' ≡ k' = same_end (sym run' ∙ run) in
      rw (← same) (keeps.healthy, cur, k.curthread ∷ [], rest)

  sleep-Popped :
      {k k' : Kernel} (addr : Ptr)
      → Healthy laws n k
      → 0 < k.curspl
      → k.in_interrupt ≡ 0
      → thread_sleep addr k ≡ ok (tt, k')
      → Popped k k'
  sleep-Popped {k} {k'} addr h off quiet run x xs e =
      let (k'', run', keeps, cur, rest) = thread_sleep-Keeps laws n k h x xs e addr off quiet in
      let same : k'' ≡ k' = same_end (sym run' ∙ run) in
      rw (← same) (keeps.healthy, cur, [], rest ∙ sym (append-nil xs))

  -- How far `p`, behind `i` others at the start, has come after `m` turns.
  abbrev Advanced : ℕ → Ptr → ℕ → Kernel → Type 0
  Advanced i p m k = ((j : ℕ) × (j + m ≡ i) × Behind j p k) ⊎ ((m ≡ suc i) × (k.curthread ≡ p))

  Advanced-turn :
      (i m : ℕ) (p : Ptr) (k k' : Kernel)
      → m ≤ i
      → Advanced i p m k
      → Popped k k'
      → Healthy laws n k' × Advanced i p (suc m) k'
  Advanced-turn i m p k k' fits (inr (e, _)) pops = absurd (omega arith)
  Advanced-turn i m p k k' fits (inl (j, e, ([], post, line, len))) pops =
      let (h, cur, _, _) = pops p post line in (h, inr (omega (arith, len), cur))
  Advanced-turn i m p k k' fits (inl (j, e, (y ∷ pre, post, line, len))) pops =
      let (h, _, more, rest) = pops y (pre ++ p ∷ post) line in
      (
        h,
        inl (
          length pre,
          omega (arith, len),
          (pre, post ++ more, rest ∙ append_assoc pre (p ∷ post) more, refl),
        ),
      )

  Advanced-work :
      (i m : ℕ) (p : Ptr) (k k' : Kernel) (more : List Ptr)
      → k'.curthread ≡ k.curthread
      → queued k'.runqueue ≡ queued k.runqueue ++ more
      → Advanced i p m k
      → Advanced i p m k'
  Advanced-work i m p k k' more same grown (inr (e, cur)) = inr (e, same ∙ cur)
  Advanced-work i m p k k' more same grown (inl (j, e, (pre, post, line, len))) = inl (
    j,
    e,
    (pre, post ++ more, grown ∙ ap (λ q. q ++ more) line ∙ append_assoc pre (p ∷ post) more, len),
  )

  Turns-Advanced :
      (i : ℕ) (p : Ptr) {k : Kernel} {m : ℕ} {k' : Kernel}
      → Healthy laws n k
      → Behind i p k
      → m ≤ suc i
      → Turns k m k'
      → Healthy laws n k' × Advanced i p m k'
  Turns-Advanced i p h b fits start = (h, inl (i, omega arith, b))
  Turns-Advanced i p h b fits (work {m} {k'} {k''} more s h' same grown) =
      (h', Advanced-work i m p k' k'' more same grown (Turns-Advanced i p h b fits s).1)
  Turns-Advanced i p h b fits (yields {m} {spl} {k'} {k''} s run) =
      let (h', a) = Turns-Advanced i p h b (omega arith) s in
      Advanced-turn i m p k' k'' (omega arith) a (yield-Popped h' run)
  Turns-Advanced i p h b fits (sleeps {m} {k'} {k''} addr s off quiet run) =
      let (h', a) = Turns-Advanced i p h b (omega arith) s in
      Advanced-turn i m p k' k'' (omega arith) a (sleep-Popped addr h' off quiet run)

  -- Nobody who is ready starves: a thread behind i others in the run queue of a healthy kernel
  -- runs after exactly i + 1 turns. A turn is a thread_yield or thread_sleep that switches;
  -- between turns the current thread may do any other work that leaves it current, keeps the
  -- kernel healthy and takes nothing out of the run queue.
  pub Turns-fair :
      (i : ℕ) (p : Ptr) {k k' : Kernel}
      → Healthy laws n k
      → Behind i p k
      → Turns k (suc i) k'
      → k'.curthread ≡ p
  Turns-fair i p h b s = elim ((Turns-Advanced i p h b (omega arith) s).1) [
    | inl (j, e, _) ↦ absurd (omega arith)
    | inr (_, cur) ↦ cur
  ]
