-- ===== src/Exercises/Copies/Reached.antt =====
-- Every order in which two processes can print is the order of some run.
use cse4300_project.Prelude.{
  ℕ, zero, suc, ◌≡◌, refl, sym, ap, ◌∙◌, true, false, List, [], ◌∷◌, ◌++◌, append-nil, append_assoc,
}
use cse4300_project.Processes.{
  Os, Fork, in_child, in_parent, Code, Line, Machine, machine_step, Run, stop, go, IsStuck,
}
use cse4300_project.Exercises.Shuffles.{Shuffle, none_left, from_left, from_right}
use cse4300_project.Exercises.Copies.Apart.{Prints, prints, then_fork, lines_of, alone, two}

cons_same : {A : Type 0} {x y : A} {xs ys : List A} → x ∷ xs ≡ y ∷ ys → (x ≡ y) × (xs ≡ ys)
cons_same e = (cc, cc)

cons_nil : {A : Type 0} {x : A} {xs : List A} → x ∷ xs ≡ [] → ⊥
cons_nil e = cc

module _ (os : Os) where
  -- A run from `s` that nobody can go on with, and what is printed then.
  abbrev pub Ends : Machine → List Line → Type 0
  Ends s w = (k : ℕ) × (t : Machine) × Run os s k t × IsStuck os t × (t.printed ≡ w)

  exited-IsStuck : (m n : ℕ) (w : List Line) → IsStuck os (two (prints [] m) (prints [] n) w)
  unfolding machine_step
  exited-IsStuck m n w false zero = refl
  exited-IsStuck m n w true zero = refl
  exited-IsStuck m n w false (suc zero) = refl
  exited-IsStuck m n w true (suc zero) = refl
  exited-IsStuck m n w fails (suc (suc i)) = refl

  Shuffle-Ends :
      (xs ys : Prints) (m n : ℕ) (w : List Line) {ls rs z : List Line}
      → Shuffle ls rs z
      → lines_of (os.pid 0) xs ≡ ls
      → lines_of (os.pid 1) ys ≡ rs
      → Ends (two (prints xs m) (prints ys n) w) (w ++ z)
  unfolding machine_step
  Shuffle-Ends [] [] m n w none_left e f =
      (0, two (prints [] m) (prints [] n) w, stop _, exited-IsStuck m n w, sym (append-nil w))
  Shuffle-Ends (x ∷ xs) ys m n w none_left e f = absurd (cons_nil e)
  Shuffle-Ends [] (y ∷ ys) m n w none_left e f = absurd (cons_nil f)
  Shuffle-Ends [] ys m n w (from_left s) e f = absurd (cons_nil (sym e))
  Shuffle-Ends (x ∷ xs) ys m n w (from_left {zs} s) e f =
      let here = lines_of (os.pid 0) (x ∷ []) in
      let (same, rest) = cons_same e in
      let (k, t, run, stuck, told) = Shuffle-Ends xs ys m n (w ++ here) s rest f in
      (
        suc k,
        t,
        go false 0 refl run,
        stuck,
        told ∙ append_assoc w here zs ∙ ap (λ v. w ++ v ∷ zs) same,
      )
  Shuffle-Ends xs [] m n w (from_right s) e f = absurd (cons_nil (sym f))
  Shuffle-Ends xs (y ∷ ys) m n w (from_right {zs} s) e f =
      let here = lines_of (os.pid 1) (y ∷ []) in
      let (same, rest) = cons_same f in
      let (k, t, run, stuck, told) = Shuffle-Ends xs ys m n (w ++ here) s e rest in
      (
        suc k,
        t,
        go false 1 refl run,
        stuck,
        told ∙ append_assoc w here zs ∙ ap (λ v. w ++ v ∷ zs) same,
      )

  module _ (g : Fork → Code) (xs ys : Prints) (m n : ℕ)
      (g-in_parent : g (in_parent (os.pid 1)) ≡ prints xs m)
      (g-in_child : g in_child ≡ prints ys n) where
    pub then_fork-Ends :
        (ps : Prints) (w : List Line) {z : List Line}
        → Shuffle (lines_of (os.pid 0) xs) (lines_of (os.pid 1) ys) z
        → Ends (alone [] (then_fork ps g) w) (w ++ (lines_of (os.pid 0) ps ++ z))
    unfolding machine_step
    then_fork-Ends [] w {z} s =
        let forked : two (g (in_parent (os.pid 1))) (g in_child) w
            ≡ two (prints xs m) (prints ys n) w =
          rw (g-in_parent, g-in_child) refl in
        let (k, t, run, stuck, told) = Shuffle-Ends xs ys m n w s refl refl in
        (suc k, t, go false 0 refl (rw (← forked) at run), stuck, told)
    then_fork-Ends (p ∷ ps) w {z} s =
        let here = lines_of (os.pid 0) (p ∷ []) in
        let (k, t, run, stuck, told) = then_fork-Ends ps (w ++ here) s in
        (
          suc k,
          t,
          go false 0 refl run,
          stuck,
          told ∙ append_assoc w here (lines_of (os.pid 0) ps ++ z),
        )
