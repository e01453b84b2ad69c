-- ===== src/Thread/Attached.antt =====
-- The children of a thread that exits, as a list from which one after the other is taken.
use cse4300_project.Prelude.{
  ℕ, zero, suc, ◌+◌, ◌≤◌, ◌<◌, ◌≡◌, refl, Bool, true, false, List, [], ◌∷◌, ◌++◌, Option, none,
  some, arith, ◌==◌, inl, inr, Bool-cases, length, get_elem?, if◌then◌else◌,
}
use cse4300_project.Platform.{Ptr, remove_at}
use cse4300_project.Platform.Arrays.{get_elem?-middle, append-snoc, length-snoc}
use cse4300_project.Thread.Join.{Child}
use cse4300_project.Thread.Search.{last_match}
use cse4300_project.Thread.Population.{occurrences}

-- No address twice.
abbrev pub IsDistinct : List Ptr → Type 0
IsDistinct xs = (p : Ptr) → occurrences p xs ≤ 1

some_same : {A : Type 0} {x y : A} → ◌≡◌ {A = Option A} (some x) (some y) → x ≡ y
some_same e = cc

-- The place of a child that was found.
abbrev pub IsPlaced : List Ptr → Option Child → Type 0
IsPlaced xs none = Unit
IsPlaced xs (some c) = get_elem? xs c.index ≡ some c.at

module _ (test : Ptr → Bool) where
  pub last_match-IsPlaced :
      (pre xs : List Ptr) (i : ℕ) (found : Option Child)
      → i ≡ length pre
      → IsPlaced (pre ++ xs) found
      → IsPlaced (pre ++ xs) (last_match test i xs found)
  last_match-IsPlaced pre [] i found e v = v
  last_match-IsPlaced pre (x ∷ xs) i found e v = rw append-snoc at (
      last_match-IsPlaced (pre ++ x ∷ []) xs (i + 1)
        (if test x then some (record { at = x; index = i }) else found)
        (omega (arith, e, length-snoc pre x)) (rw append-snoc (by_test (test x))))
    where
      by_test :
          (b : Bool)
          → IsPlaced (pre ++ x ∷ xs) (if b then some (record { at = x; index = i }) else found)
      by_test true = rw e (get_elem?-middle pre x xs)
      by_test false = v

  last_match-kept :
      (xs : List Ptr) (i : ℕ) (c : Child) → (c' : Child) × (last_match test i xs (some c) ≡ some c')
  last_match-kept [] i c = (c, refl)
  last_match-kept (x ∷ xs) i c = elim (Bool-cases (test x)) [
    | inl hit ↦ rw hit (last_match-kept xs (i + 1) (record { at = x; index = i }))
    | inr miss ↦ rw miss (last_match-kept xs (i + 1) c)
  ]

  -- Where an entry passes the test, one is found.
  pub last_match-some :
      (xs : List Ptr) (i m : ℕ) (x : Ptr) (found : Option Child)
      → get_elem? xs m ≡ some x
      → test x ≡ true
      → (c : Child) × (last_match test i xs found ≡ some c)
  last_match-some [] i m x found e hit = absurd (none_some e)
    where
      none_some : ◌≡◌ {A = Option Ptr} none (some x) → ⊥
      none_some e = cc
  last_match-some (y ∷ xs) i zero x found e hit =
      let same : y ≡ x = some_same e in
      rw (same, hit) (last_match-kept xs (i + 1) (record { at = x; index = i }))
  last_match-some (y ∷ xs) i (suc m) x found e hit =
      last_match-some xs (i + 1) m x (if test y then some (record { at = y; index = i }) else found)
        e hit

pub get_elem?-in_range : (xs : List Ptr) (i : ℕ) (x : Ptr) → get_elem? xs i ≡ some x → i < length xs
get_elem?-in_range [] i x e = absurd (ground arith)
get_elem?-in_range (y ∷ xs) zero x e = omega arith
get_elem?-in_range (y ∷ xs) (suc i) x e = omega (arith, get_elem?-in_range xs i x e)

pub length-remove_at :
    (xs : List Ptr) (i : ℕ) → i < length xs → length (remove_at xs i) + 1 ≡ length xs
length-remove_at [] i h = absurd (omega arith)
length-remove_at (x ∷ xs) zero h = omega arith
length-remove_at (x ∷ xs) (suc i) h = omega (arith, length-remove_at xs i (omega arith))

pub occurrences-remove_at :
    (p : Ptr) (xs : List Ptr) (i : ℕ) (x : Ptr)
    → get_elem? xs i ≡ some x
    → occurrences p xs ≡ occurrences p (remove_at xs i) + (if p == x then 1 else 0)
occurrences-remove_at p [] i x e = absurd (none_some e)
  where
    none_some : ◌≡◌ {A = Option Ptr} none (some x) → ⊥
    none_some e = cc
occurrences-remove_at p (y ∷ xs) zero x e = let same : y ≡ x = some_same e in rw same (omega arith)
occurrences-remove_at p (y ∷ xs) (suc i) x e = omega (arith, occurrences-remove_at p xs i x e)

pub IsDistinct-remove_at :
    (xs : List Ptr) (i : ℕ) (x : Ptr)
    → get_elem? xs i ≡ some x
    → IsDistinct xs
    → IsDistinct (remove_at xs i) × (occurrences x (remove_at xs i) ≡ 0)
IsDistinct-remove_at xs i x e v = (
  λ p. omega (arith, occurrences-remove_at p xs i x e, v p),
  (let self : (x == x) ≡ true = ground arith in
      omega (arith, rw self at (occurrences-remove_at x xs i x e), v x)),
)
