-- ===== src/Platform/Arrays.antt =====
-- A scan of an array: what its operations give between the entries passed and those still ahead.
use cse4300_project.Prelude.{
  ◌≤◌, inl, inr, Bool-cases, suc, ◌+◌, ◌≡◌, refl, ap, ◌∙◌, Bool, true, false, List, [], ◌∷◌, ◌++◌,
  some, arith, ltb, if◌then◌else◌, length, length-append, get_elem?,
}
use mathlib.Core.List.{append-nil, append_assoc}
use cse4300_project.Platform.{Ptr, Platform, Laws, remove_at}

module _ {ℓ} {A : Type ℓ} where
  abbrev pub select : (A → Bool) → List A → List A
  select p [] = []
  select p (x ∷ xs) = if p x then x ∷ select p xs else select p xs

  abbrev pub reject : (A → Bool) → List A → List A
  reject p [] = []
  reject p (x ∷ xs) = if p x then reject p xs else x ∷ reject p xs

  pub length-reject : (p : A → Bool) (xs : List A) → length (reject p xs) ≤ length xs
  length-reject p [] = omega arith
  length-reject p (x ∷ xs) = elim (Bool-cases (p x)) [
    | inl out ↦ rw out (omega (arith, length-reject p xs))
    | inr kept ↦ rw kept (omega (arith, length-reject p xs))
  ]

  pub get_elem?-middle :
      (pre : List A) (x : A) (xs : List A) → get_elem? (pre ++ x ∷ xs) (length pre) ≡ some x
  get_elem?-middle [] x xs = refl
  get_elem?-middle (y ∷ pre) x xs = get_elem?-middle pre x xs

  pub remove_at-middle :
      (pre : List A) (x : A) (xs : List A) → remove_at (pre ++ x ∷ xs) (length pre) ≡ pre ++ xs
  remove_at-middle [] x xs = refl
  remove_at-middle (y ∷ pre) x xs = ap (◌∷◌ y) (remove_at-middle pre x xs)

  pub append-snoc : (pre : List A) (x : A) (xs : List A) → (pre ++ x ∷ []) ++ xs ≡ pre ++ x ∷ xs
  append-snoc pre x xs = append_assoc pre (x ∷ []) xs

  pub length-snoc : (pre : List A) (x : A) → length (pre ++ x ∷ []) ≡ length pre + 1
  length-snoc pre x = length-append pre (x ∷ [])

module _ ⦃os : Platform⦄ (laws : Laws os) (a : os.Arr) (pre : List Ptr) where
  pub at_end : laws.view a ≡ pre ++ [] → ltb (length pre) (os.array_getnum a) ≡ false
  at_end e = ground (arith, laws.getnum-view a, ap length (e ∙ append-nil pre))

  module _ (x : Ptr) (xs : List Ptr) (e : laws.view a ≡ pre ++ x ∷ xs) where
    size : length (laws.view a) ≡ length pre + suc (length xs)
    size = ap length e ∙ length-append pre (x ∷ xs)

    pub in_range : ltb (length pre) (os.array_getnum a) ≡ true
    in_range = ground (arith, laws.getnum-view a, size)

    pub getguy_here : os.array_getguy a (length pre) ≡ x
    getguy_here = cc (
      laws.getguy-view a (length pre) (omega (arith, size)),
      ap (λ l. get_elem? l (length pre)) e,
      get_elem?-middle pre x xs,
    )

    pub remove_here : laws.view (os.array_remove a (length pre)) ≡ pre ++ xs
    remove_here =
        laws.remove-view a (length pre) (omega (arith, size))
        ∙ ap (λ l. remove_at l (length pre)) e
        ∙ remove_at-middle pre x xs

    -- The entry passed.
    pub passed : laws.view a ≡ (pre ++ x ∷ []) ++ xs
    passed = rw append-snoc e
