-- ===== src/Exercises/Shuffles.antt =====
-- The orders in which the lines of two processes come out.
use cse4300_project.Prelude.{◌≡◌, refl, List, [], ◌∷◌, ◌++◌, map, ◌⊎◌, inl, inr}
use cse4300_project.Processes.Outcomes.{In}

-- All of both lists, each in its own order.
pub data Shuffle {A : Type 0} : List A → List A → List A → Type 0 where
  none_left : Shuffle [] [] []
  from_left : {x : A} {xs ys zs : List A} → Shuffle xs ys zs → Shuffle (x ∷ xs) ys (x ∷ zs)
  from_right : {y : A} {xs ys zs : List A} → Shuffle xs ys zs → Shuffle xs (y ∷ ys) (y ∷ zs)

module _ {A : Type 0} where
  abbrev pub shuffles : List A → List A → List (List A)
  shuffles [] [] = [] ∷ []
  shuffles [] (y ∷ ys) = map (◌∷◌ y) (shuffles [] ys)
  shuffles (x ∷ xs) [] = map (◌∷◌ x) (shuffles xs [])
  shuffles (x ∷ xs) (y ∷ ys) =
      map (◌∷◌ x) (shuffles xs (y ∷ ys)) ++ map (◌∷◌ y) (shuffles (x ∷ xs) ys)

  pub In-append : (z : A) (xs ys : List A) → In z (xs ++ ys) → In z xs ⊎ In z ys
  In-append z [] ys i = inr i
  In-append z (x ∷ xs) ys (inl e) = inl (inl e)
  In-append z (x ∷ xs) ys (inr i) = elim (In-append z xs ys i) [
    | inl left ↦ inl (inr left)
    | inr right ↦ inr right
  ]

pub In-map :
    {A B : Type 0} (f : A → B) (z : B) (xs : List A)
    → In z (map f xs)
    → (x : A) × In x xs × (z ≡ f x)
In-map f z [] i = absurd i
In-map f z (x ∷ xs) (inl e) = (x, inl refl, e)
In-map f z (x ∷ xs) (inr i) = let (y, there, e) = In-map f z xs i in (y, inr there, e)

module _ {A : Type 0} where
  pub shuffles-Shuffle : (xs ys zs : List A) → In zs (shuffles xs ys) → Shuffle xs ys zs
  shuffles-Shuffle [] [] zs (inl e) = rw e none_left
  shuffles-Shuffle [] [] zs (inr i) = absurd i
  shuffles-Shuffle [] (y ∷ ys) zs i =
      let (rest, there, e) = In-map (◌∷◌ y) zs (shuffles [] ys) i in
      rw e (from_right (shuffles-Shuffle [] ys rest there))
  shuffles-Shuffle (x ∷ xs) [] zs i =
      let (rest, there, e) = In-map (◌∷◌ x) zs (shuffles xs []) i in
      rw e (from_left (shuffles-Shuffle xs [] rest there))
  shuffles-Shuffle (x ∷ xs) (y ∷ ys) zs i =
      elim (In-append zs (map (◌∷◌ x) (shuffles xs (y ∷ ys))) (map (◌∷◌ y) (shuffles (x ∷ xs) ys))
        i) [
          | inl left ↦
              let (rest, there, e) = In-map (◌∷◌ x) zs (shuffles xs (y ∷ ys)) left in
              rw e (from_left (shuffles-Shuffle xs (y ∷ ys) rest there))
          | inr right ↦
              let (rest, there, e) = In-map (◌∷◌ y) zs (shuffles (x ∷ xs) ys) right in
              rw e (from_right (shuffles-Shuffle (x ∷ xs) ys rest there))
        ]
