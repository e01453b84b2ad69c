-- ===== src/Processes/Outcomes.antt =====
-- All that the runs of a program can come to, by trying every order.
use cse4300_project.Prelude.{
  ℕ, zero, suc, ◌≤◌, ◌<◌, ◌≡◌, refl, sym, ◌∙◌, Bool, true, false, List, [], ◌∷◌, ◌++◌, Option, none,
  some, arith, ◌⊎◌, inl, inr, length, get_elem?, Bool-cases, ltb, ltb→lt,
}
use cse4300_project.Processes.{Os, Machine, Line, machine_step, Run, stop, go, IsStuck}

abbrev pub In : {A : Type 0} → A → List A → Type 0
In x [] = ⊥
In x (y ∷ ys) = (x ≡ y) ⊎ In x ys

module _ {A : Type 0} where
  pub In-append_left : (x : A) (xs ys : List A) → In x xs → In x (xs ++ ys)
  In-append_left x [] ys i = absurd i
  In-append_left x (y ∷ xs) ys (inl e) = inl e
  In-append_left x (y ∷ xs) ys (inr i) = inr (In-append_left x xs ys i)

  pub In-append_right : (x : A) (xs ys : List A) → In x ys → In x (xs ++ ys)
  In-append_right x [] ys i = i
  In-append_right x (y ∷ xs) ys i = inr (In-append_right x xs ys i)

-- What a run leaves: how its calls of fork went, and what is printed.
abbrev pub Outcome : Type 0
Outcome = List Bool × List Line

abbrev pub seen : Machine → Outcome
seen s = (s.forks, s.printed)

-- Both lists together, where there are both.
abbrev both : Option (List Outcome) → Option (List Outcome) → Option (List Outcome)
both none o = none
both (some a) none = none
both (some a) (some b) = some (a ++ b)

abbrev gather : (Machine → Option (List Outcome)) → List Machine → Option (List Outcome)
gather g [] = some []
gather g (s ∷ ss) = both (g s) (gather g ss)

abbrev cons? : Option Machine → List Machine → List Machine
cons? none ss = ss
cons? (some s) ss = s ∷ ss

module _ (os : Os) where
  -- The machines after a step of one of the first `n` processes.
  abbrev nexts : ℕ → Machine → List Machine
  nexts zero s = []
  nexts (suc n) s = cons? (machine_step os false n s) (cons? (machine_step os true n s) (nexts n s))

  -- What the runs come to that go on until nobody can; `none` where the fuel ends before one does.
  unfoldable pub outcomes : ℕ → Machine → Option (List Outcome)
  outcomes zero s = none
  outcomes (suc fuel) s = elim (nexts (length s.processes) s) [
    | [] ↦ some (seen s ∷ [])
    | t ∷ ts ↦ gather (outcomes fuel) (t ∷ ts)
  ]

  nexts_stuck : (n : ℕ) (s : Machine) → IsStuck os s → nexts n s ≡ []
  nexts_stuck zero s stuck = refl
  nexts_stuck (suc n) s stuck = rw (stuck false n, stuck true n) (nexts_stuck n s stuck)

  In-cons? : (t : Machine) (o : Option Machine) (ss : List Machine) → In t ss → In t (cons? o ss)
  In-cons? t none ss m = m
  In-cons? t (some u) ss m = inr m

  In-nexts :
      (n : ℕ) (fails : Bool) (i : ℕ) (s t : Machine)
      → i < n
      → machine_step os fails i s ≡ some t
      → In t (nexts n s)
  In-nexts zero fails i s t h e = absurd (omega arith)
  In-nexts (suc n) fails i s t h e = elim (eq_or_lt n i h) [
    | inl same ↦ here fails (rw same e)
    | inr less ↦
        In-cons? t (machine_step os false n s) (cons? (machine_step os true n s) (nexts n s))
          (In-cons? t (machine_step os true n s) (nexts n s) (In-nexts n fails i s t less e))
  ]
    where
      eq_or_lt : (n i : ℕ) → i < suc n → (n ≡ i) ⊎ (i < n)
      eq_or_lt n i h = grind arith

      here : (fails : Bool) → machine_step os fails n s ≡ some t → In t (nexts (suc n) s)
      here false e = rw e (inl refl)
      here true e =
          In-cons? t (machine_step os false n s) (cons? (machine_step os true n s) (nexts n s))
            (rw e (inl refl))

  -- Nobody behind the last process can take a step.
  get_elem?_past : {A : Type 0} (xs : List A) (i : ℕ) → length xs ≤ i → get_elem? xs i ≡ none
  get_elem?_past [] i h = refl
  get_elem?_past (x ∷ xs) zero h = absurd (omega arith)
  get_elem?_past (x ∷ xs) (suc i) h = get_elem?_past xs i (omega arith)

  step_past :
      (fails : Bool) (i : ℕ) (s : Machine)
      → get_elem? s.processes i ≡ none
      → machine_step os fails i s ≡ none
  unfolding machine_step
  step_past fails i s e = rw (e, machine_step) refl

  step_in_range :
      (fails : Bool) (i : ℕ) (s t : Machine)
      → machine_step os fails i s ≡ some t
      → i < length s.processes
  step_in_range fails i s t e = elim (Bool-cases (ltb i (length s.processes))) [
    | inl less ↦ omega (arith, ltb→lt i (length s.processes) less)
    | inr past ↦
        absurd
          (none_some (sym (step_past fails i s (get_elem?_past s.processes i (ground arith))) ∙ e))
  ]
    where
      none_some : ◌≡◌ {A = Option Machine} none (some t) → ⊥
      none_some x = cc

  both_parts :
      (o p : Option (List Outcome)) (all : List Outcome)
      → both o p ≡ some all
      → (x y : List Outcome) × (o ≡ some x) × (p ≡ some y) × (x ++ y ≡ all)
  both_parts none p all e = absurd (none_some e)
    where
      none_some : ◌≡◌ {A = Option (List Outcome)} none (some all) → ⊥
      none_some x = cc
  both_parts (some a) none all e = absurd (none_some e)
    where
      none_some : ◌≡◌ {A = Option (List Outcome)} none (some all) → ⊥
      none_some x = cc
  both_parts (some a) (some b) all e = (a, b, refl, refl, cc)

  -- A part of what is gathered.
  In-gather :
      (g : Machine → Option (List Outcome)) (ss : List Machine) (t : Machine) (all : List Outcome)
      → In t ss
      → gather g ss ≡ some all
      → (some_of : List Outcome) × (g t ≡ some some_of) × ((x : Outcome) → In x some_of → In x all)
  In-gather g [] t all m e = absurd m
  In-gather g (s ∷ ss) t all m e =
      let (x, y, here, there, whole) = both_parts (g s) (gather g ss) all e in
      elim m [
        | inl same ↦ (x, rw same here, λ l i. rw (← whole) (In-append_left l x y i))
        | inr later ↦
            let (o, found, into) = In-gather g ss t y later there in
            (o, found, λ l i. rw (← whole) (In-append_right l x y (into l i)))
      ]

  -- runs
  pub Run-outcomes :
      (fuel n : ℕ) {s t : Machine} (all : List Outcome)
      → outcomes fuel s ≡ some all
      → Run os s n t
      → (n < fuel) × (IsStuck os t → In (seen t) all)
  unfolding outcomes
  Run-outcomes zero n all e run = absurd (none_some e)
    where
      none_some : ◌≡◌ {A = Option (List Outcome)} none (some all) → ⊥
      none_some x = cc
  Run-outcomes (suc fuel) zero all e (stop s) = (
    omega arith,
    λ stuck. at_end (nexts (length s.processes) s) (nexts_stuck (length s.processes) s stuck) e,
  )
    where
      at_end :
          (l : List Machine)
          → l ≡ []
          → (elim l [ [] ↦ some (seen s ∷ []) | t ∷ ts ↦ gather (outcomes fuel) (t ∷ ts) ])
            ≡ some all
          → In (seen s) all
      at_end [] none_left e = rw (some_same e) (inl refl)
        where
          some_same :
              ◌≡◌ {A = Option (List Outcome)} (some (seen s ∷ [])) (some all) → all ≡ seen s ∷ []
          some_same x = cc
      at_end (t ∷ ts) none_left e = absurd (cons_nil none_left)
        where
          cons_nil : t ∷ ts ≡ [] → ⊥
          cons_nil x = cc
  Run-outcomes (suc fuel) (suc n) all e (go {s} {t} {u} fails i first rest) =
      let found =
        In-nexts (length s.processes) fails i s t (step_in_range fails i s t first) first in
      let (part, e', into) =
        In-gather (outcomes fuel) (nexts (length s.processes) s) t all found
          (not_last (nexts (length s.processes) s) found e) in
      let (fits, heard) = Run-outcomes fuel n part e' rest in
      (omega (arith, fits), λ stuck. into (seen u) (heard stuck))
    where
      not_last :
          (l : List Machine)
          → In t l
          → (elim l [ [] ↦ some (seen s ∷ []) | t ∷ ts ↦ gather (outcomes fuel) (t ∷ ts) ])
            ≡ some all
          → gather (outcomes fuel) l ≡ some all
      not_last [] m e = absurd m
      not_last (t ∷ ts) m e = e
