-- ===== src/Thread/Search.antt =====
-- The searches of thread_join and thread_detach, over the lists that the arrays stand for.
use cse4300_project.Prelude.{
  ℕ, zero, suc, ◌+◌, ◌<◌, ◌≡◌, ◌≢◌, refl, ◌∙◌, Bool, true, false, ◌&&◌, List, [], ◌∷◌, ◌++◌, Option,
  none, some, arith, ltb, ◌==◌, if◌then◌else◌, length,
}
use cse4300_project.Platform.{Ptr, Platform, Laws}
use cse4300_project.Platform.Arrays.{at_end, in_range, getguy_here, passed, length-snoc}
use cse4300_project.Kernel.{Kernel, Thread, Cell, ok}
use cse4300_project.Thread.Join.{Child, is_child, find_child, find_in, find_anywhere}

-- A member that was allocated.
abbrev pub IsLive : Cell → Type 0
IsLive c = c.at ≢ 0

module _ ⦃os : Platform⦄ where
  -- A thread whose members can be read.
  pub record IsWhole (t : Thread) : Type 0 where
    pub pid_live : IsLive t.t_pid
    pub parent_live : IsLive t.parent
    pub exit_live : IsLive t.t_exit
    pub detached_live : IsLive t.is_detached
    pub exited_live : IsLive t.has_exited

  -- Every entry points to such a thread.
  abbrev pub AreWhole : (Ptr → Option Thread) → List Ptr → Type 0
  AreWhole threads [] = Unit
  AreWhole threads (p ∷ ps) =
      ((t : Thread) × (threads p ≡ some t) × IsWhole t) × AreWhole threads ps

  -- Is the thread at `p` the child `pid` of the thread `mine`?
  abbrev pub is_child_at : (Ptr → Option Thread) → ℕ → ℕ → Ptr → Bool
  is_child_at threads mine pid p = elim (threads p) [
    | none ↦ false
    | some t ↦ (t.t_pid.value == pid) && (t.parent.value == mine)
  ]

-- The last entry that passes the test, with its index, which counts from `i`.
abbrev pub last_match : (Ptr → Bool) → ℕ → List Ptr → Option Child → Option Child
last_match test i [] found = found
last_match test i (p ∷ ps) found =
    last_match test (i + 1) ps (if test p then some (record { at = p; index = i }) else found)

module _ ⦃os : Platform⦄ (laws : Laws os) (k : Kernel) (cur : Thread) (pid : ℕ)
    (running : k.threads k.curthread ≡ some cur) (whole : IsWhole cur) where
  open laws use {view}

  abbrev test : Ptr → Bool
  test = is_child_at k.threads cur.t_pid.value pid

  is_child_lem :
      (p : Ptr) (t : Thread) → k.threads p ≡ some t → IsWhole t → is_child t pid k ≡ ok (test p, k)
  unfolding is_child
  is_child_lem p t found w = ground (arith, w.pid_live, w.parent_live, whole.pid_live)

  module _ (a : os.Arr) where
    find_child_step :
        (fuel i : ℕ) (p : Ptr) (t : Thread) (found : Option Child)
        → ltb i (os.array_getnum a) ≡ true
        → os.array_getguy a i ≡ p
        → k.threads p ≡ some t
        → IsWhole t
        → find_child (suc fuel) i pid a found k
          ≡ find_child fuel
              (i + 1)
              pid
              a
              (if test p then some (record { at = p; index = i }) else found)
              k
    unfolding find_child
    find_child_step fuel i p t found more here e w = ground (arith, is_child_lem p t e w)

    pub find_child-last_match :
        (fuel i : ℕ) (pre xs : List Ptr) (found : Option Child)
        → i ≡ length pre
        → view a ≡ pre ++ xs
        → AreWhole k.threads xs
        → length xs < fuel
        → find_child fuel i pid a found k ≡ ok (last_match test i xs found, k)
    unfolding find_child
    find_child-last_match zero i pre xs found j e v h = absurd (omega arith)
    find_child-last_match (suc fuel) i pre [] found j e v h = ground (arith, at_end laws a pre e)
    find_child-last_match (suc fuel) i pre (x ∷ xs) found j e ((t, threads_x, w), v) h =
        find_child_step fuel i x t found (rw j (in_range laws a pre x xs e))
          (rw j (getguy_here laws a pre x xs e)) threads_x w
        ∙ find_child-last_match fuel (i + 1) (pre ++ x ∷ []) xs _ (omega (arith, length-snoc pre x))
            (passed laws a pre x xs e) v (omega arith)

    -- Once a thread has been found, a later loop passes over every entry.
    find_in_step :
        (fuel i : ℕ) (p : Ptr) (t : Thread) (found : Ptr) (index : Option ℕ)
        → found ≢ 0
        → ltb i (os.array_getnum a) ≡ true
        → os.array_getguy a i ≡ p
        → k.threads p ≡ some t
        → IsWhole t
        → find_in (suc fuel) i pid a found index k ≡ find_in fuel (i + 1) pid a found index k
    unfolding find_in
    find_in_step fuel i p t found index real more here e w = ground (arith, w.pid_live)

    find_in-found :
        (fuel i : ℕ) (pre xs : List Ptr) (found : Ptr) (index : Option ℕ)
        → found ≢ 0
        → i ≡ length pre
        → view a ≡ pre ++ xs
        → AreWhole k.threads xs
        → length xs < fuel
        → find_in fuel i pid a found index k ≡ ok ((found, index), k)
    unfolding find_in
    find_in-found zero i pre xs found index real j e v h = absurd (omega arith)
    find_in-found (suc fuel) i pre [] found index real j e v h = ground (arith, at_end laws a pre e)
    find_in-found (suc fuel) i pre (x ∷ xs) found index real j e ((t, threads_x, w), v) h =
        find_in_step fuel i x t found index real (rw j (in_range laws a pre x xs e))
          (rw j (getguy_here laws a pre x xs e)) threads_x w
        ∙ find_in-found fuel (i + 1) (pre ++ x ∷ []) xs found index real
            (omega (arith, length-snoc pre x)) (passed laws a pre x xs e) v (omega arith)

  -- With all three arrays readable the later loops change nothing: `k` stays -1.
  pub find_anywhere-found :
      (s z j : os.Arr) (found : Ptr)
      → found ≢ 0
      → k.sleepers ≡ some s
      → k.zombies ≡ some z
      → k.joinable ≡ some j
      → AreWhole k.threads (view s)
      → AreWhole k.threads (view z)
      → AreWhole k.threads (view j)
      → find_anywhere pid found k ≡ ok ((found, none), k)
  unfolding find_anywhere
  find_anywhere-found s z j found real es ez ej vs vz vj =
      ground (arith, loop s vs, loop z vz, loop j vj)
    where
      loop :
          (a : os.Arr)
          → AreWhole k.threads (view a)
          → find_in (suc (os.array_getnum a)) 0 pid a found none k ≡ ok ((found, none), k)
      loop a v =
          find_in-found a (suc (os.array_getnum a)) 0 [] (view a) found none real refl refl v
            (omega (arith, laws.getnum-view a))
