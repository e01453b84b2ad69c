-- ===== src/Exercises/Copies/Apart.antt =====
-- A program that prints, forks and prints on in both processes, neither of which waits.
use cse4300_project.Prelude.{
  append-nil, append_assoc, ℕ, zero, suc, ◌+◌, ◌≤◌, ◌≡◌, refl, sym, ◌∙◌, Bool, true, false, List,
  [], ◌∷◌, ◌++◌, Option, none, some, arith, ◌⊎◌, inl, inr, length,
}
use cse4300_project.Menu.Words.{Word}
use cse4300_project.Processes.{
  Os, Fork, Code, exit, printf, fork, Process, Line, line, Machine, machine_step, Run, stop, go,
  IsStuck,
}
use cse4300_project.Exercises.Shuffles.{Shuffle, none_left, from_left, from_right}

-- The prints of one process: each has a format and its numbers, which may depend on the pid.
abbrev pub Prints : Type 0
Prints = List (Word × (ℕ → List ℕ))

abbrev pub prints : Prints → ℕ → Code
prints [] n = exit n
prints ((f, a) ∷ ps) n = printf f (λ self parent. a self) (prints ps n)

abbrev pub then_fork : Prints → (Fork → Code) → Code
then_fork [] g = fork g
then_fork ((f, a) ∷ ps) g = printf f (λ self parent. a self) (then_fork ps g)

abbrev pub lines_of : ℕ → Prints → List Line
lines_of pid [] = []
lines_of pid ((f, a) ∷ ps) = line f (a pid) ∷ lines_of pid ps

abbrev pub with : Option ℕ → Bool → Code → Process
with parent waited c = record { parent = parent; code = c; is_waited = waited }

-- The first process by itself, with what its calls of fork have come to, and both processes.
abbrev pub alone : List Bool → Code → List Line → Machine
alone fs c w = record { processes = with none false c ∷ []; forks = fs; printed = w }

abbrev pub two : Code → Code → List Line → Machine
two c d w = record {
  processes = with none false c ∷ with (some 0) false d ∷ [];
  forks = true ∷ [];
  printed = w;
}

pub no_state : {s : Machine} → ◌≡◌ {A = Option Machine} none (some s) → ⊥
no_state e = cc

pub some_same : {s t : Machine} → ◌≡◌ {A = Option Machine} (some s) (some t) → s ≡ t
some_same e = cc

module _ (os : Os) where
  -- What is seen at the end: after `k` steps at most, `w` and a shuffle of the two.
  abbrev pub Shuffled : Prints → Prints → List Line → ℕ → Machine → Type 0
  Shuffled xs ys w n t =
      (n ≤ length xs + length ys)
      × (IsStuck os t
          → (z : List Line) × Shuffle (lines_of (os.pid 0) xs) (lines_of (os.pid 1) ys) z
            × (t.printed ≡ w ++ z)
            × (t.forks ≡ true ∷ []))

  -- Who took a step, and what it led to.
  two_steps :
      (xs ys : Prints) (m n : ℕ) (w : List Line) (fails : Bool) (i : ℕ) (t : Machine)
      → machine_step os fails i (two (prints xs m) (prints ys n) w) ≡ some t
      → ((x : Word × (ℕ → List ℕ)) × (rest : Prints) × (xs ≡ x ∷ rest)
          × (t ≡ two (prints rest m) (prints ys n) (w ++ lines_of (os.pid 0) (x ∷ []))))
        ⊎ ((y : Word × (ℕ → List ℕ)) × (rest : Prints) × (ys ≡ y ∷ rest)
            × (t ≡ two (prints xs m) (prints rest n) (w ++ lines_of (os.pid 1) (y ∷ []))))
  unfolding machine_step
  two_steps [] ys m n w false zero t e = absurd (no_state e)
  two_steps [] ys m n w true zero t e = absurd (no_state e)
  two_steps (x ∷ xs) ys m n w true zero t e = absurd (no_state e)
  two_steps (x ∷ xs) ys m n w false zero t e = inl (x, xs, refl, sym (some_same e))
  two_steps xs [] m n w false (suc zero) t e = absurd (no_state e)
  two_steps xs [] m n w true (suc zero) t e = absurd (no_state e)
  two_steps xs (y ∷ ys) m n w true (suc zero) t e = absurd (no_state e)
  two_steps xs (y ∷ ys) m n w false (suc zero) t e = inr (y, ys, refl, sym (some_same e))
  two_steps xs ys m n w fails (suc (suc i)) t e = absurd (no_state e)

  two_stuck :
      (xs ys : Prints) (m n : ℕ) (w : List Line)
      → IsStuck os (two (prints xs m) (prints ys n) w)
      → Shuffle (lines_of (os.pid 0) xs) (lines_of (os.pid 1) ys) []
  unfolding machine_step
  two_stuck [] [] m n w stuck = none_left
  two_stuck (x ∷ xs) ys m n w stuck = absurd (no_state (sym (stuck false 0)))
  two_stuck [] (y ∷ ys) m n w stuck = absurd (no_state (sym (stuck false 1)))

  left-Shuffled :
      (x : Word × (ℕ → List ℕ)) (xs ys : Prints) (w : List Line) (k : ℕ) (t : Machine)
      → Shuffled xs ys (w ++ lines_of (os.pid 0) (x ∷ [])) k t
      → Shuffled (x ∷ xs) ys w (suc k) t
  left-Shuffled x xs ys w k t (short, heard) = (
    omega (arith, short),
    λ stuck.
        let (z, order, e, f) = heard stuck in
        let here = lines_of (os.pid 0) (x ∷ []) in
        (here ++ z, from_left order, e ∙ append_assoc w here z, f),
  )

  right-Shuffled :
      (y : Word × (ℕ → List ℕ)) (xs ys : Prints) (w : List Line) (k : ℕ) (t : Machine)
      → Shuffled xs ys (w ++ lines_of (os.pid 1) (y ∷ [])) k t
      → Shuffled xs (y ∷ ys) w (suc k) t
  right-Shuffled y xs ys w k t (short, heard) = (
    omega (arith, short),
    λ stuck.
        let (z, order, e, f) = heard stuck in
        let here = lines_of (os.pid 1) (y ∷ []) in
        (here ++ z, from_right order, e ∙ append_assoc w here z, f),
  )

  -- Both processes print.
  pub Run-Shuffled :
      (k : ℕ) (xs ys : Prints) (m n : ℕ) (w : List Line) {t : Machine}
      → Run os (two (prints xs m) (prints ys n) w) k t
      → Shuffled xs ys w k t
  Run-Shuffled zero xs ys m n w (stop s) =
      (omega arith, λ stuck. ([], two_stuck xs ys m n w stuck, sym (append-nil w), refl))
  Run-Shuffled (suc k) xs ys m n w (go {s} {t} {u} fails i first rest) =
      elim (two_steps xs ys m n w fails i t first) [
        | inl (x, xs', e, then) ↦
            let w' = w ++ lines_of (os.pid 0) (x ∷ []) in
            rw e (left-Shuffled x xs' ys w k u (Run-Shuffled k xs' ys m n w' (rw then at rest)))
        | inr (y, ys', e, then) ↦
            let w' = w ++ lines_of (os.pid 1) (y ∷ []) in
            rw e (right-Shuffled y xs ys' w k u (Run-Shuffled k xs ys' m n w' (rw then at rest)))
      ]

  -- One process prints, where it could not fork.
  pub Run-alone :
      (k : ℕ) (fs : List Bool) (xs : Prints) (m : ℕ) (w : List Line) {t : Machine}
      → Run os (alone fs (prints xs m) w) k t
      → (k ≤ length xs)
        × (IsStuck os t → (t.printed ≡ w ++ lines_of (os.pid 0) xs) × (t.forks ≡ fs))
  unfolding machine_step
  Run-alone zero fs [] m w (stop s) = (omega arith, λ stuck. (sym (append-nil w), refl))
  Run-alone zero fs (x ∷ xs) m w (stop s) =
      (omega arith, λ stuck. absurd (no_state (sym (stuck false 0))))
  Run-alone (suc k) fs [] m w (go false zero first rest) = absurd (no_state first)
  Run-alone (suc k) fs [] m w (go true zero first rest) = absurd (no_state first)
  Run-alone (suc k) fs xs m w (go fails (suc i) first rest) = absurd (no_state first)
  Run-alone (suc k) fs (x ∷ xs) m w (go true zero first rest) = absurd (no_state first)
  Run-alone (suc k) fs (x ∷ xs) m w (go false zero first rest) =
      let here = lines_of (os.pid 0) (x ∷ []) in
      let (short, heard) = Run-alone k fs xs m (w ++ here) (rw (← some_same first) at rest) in
      (
        omega (arith, short),
        λ stuck. let (e, f) = heard stuck in (e ∙ append_assoc w here (lines_of (os.pid 0) xs), f),
      )
