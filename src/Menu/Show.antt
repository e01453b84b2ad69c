-- ===== src/Menu/Show.antt =====
-- showmenu of menu.c: a menu in two columns.
use cse4300_project.Prelude.{
  ℕ, zero, suc, ◌+◌, ◌/◌, ◌≤◌, ◌≡◌, refl, ap, ◌∙◌, arith, List, [], ◌∷◌, ◌++◌, Option, none, some,
  ltb, if◌then◌else◌, length, get_elem?, take, drop, take-append-drop, length-drop,
}
use mathlib.Core.Path.{ap₂}

-- One printed line: what stands in the two columns.
pub record Row (A : Type 0) : Type 0 where
  pub left : Option A
  pub right : Option A

module _ {A : Type 0} where
  unfoldable pub show_rows : ℕ → ℕ → ℕ → List A → List (Row A)
  show_rows zero i half x = []
  show_rows (suc n) i half x =
      record {
        left = get_elem? x i;
        right = if ltb (i + half) (length x) then get_elem? x (i + half) else none;
      }
      ∷ show_rows n (i + 1) half x

  unfoldable pub showmenu : List A → List (Row A)
  unfolding show_rows
  showmenu x = let half = (length x + 1) / 2 in show_rows half 0 half x

  -- The entries of a column, from the top.
  abbrev pub left_column : List (Row A) → List A
  left_column [] = []
  left_column (r ∷ rs) = elim r.left [ none ↦ left_column rs | some a ↦ a ∷ left_column rs ]

  abbrev pub right_column : List (Row A) → List A
  right_column [] = []
  right_column (r ∷ rs) = elim r.right [ none ↦ right_column rs | some a ↦ a ∷ right_column rs ]

  -- The entry at an index heads what is left from there.
  abbrev Split : List A → ℕ → Option A → Type 0
  Split x i none = (drop i x ≡ []) × (drop (suc i) x ≡ [])
  Split x i (some a) = drop i x ≡ a ∷ drop (suc i) x

  get_elem?-Split : (x : List A) (i : ℕ) → Split x i (get_elem? x i)
  get_elem?-Split [] zero = (refl, refl)
  get_elem?-Split [] (suc i) = (refl, refl)
  get_elem?-Split (a ∷ x) zero = refl
  get_elem?-Split (a ∷ x) (suc i) = shift (get_elem? x i) (get_elem?-Split x i)
    where
      shift : (o : Option A) → Split x i o → Split (a ∷ x) (suc i) o
      shift none e = e
      shift (some b) e = e

  take-nil : (n : ℕ) → take {A = A} n [] ≡ []
  take-nil zero = refl
  take-nil (suc n) = refl

  -- A column that shows the entries from `i` on, one a line.
  column_step :
      (x : List A) (i n : ℕ) (o : Option A) (rest : List A)
      → Split x i o
      → rest ≡ take n (drop (i + 1) x)
      → (elim o [ none ↦ rest | some a ↦ a ∷ rest ]) ≡ take (suc n) (drop i x)
  column_step x i n none rest e h =
      let next : i + 1 ≡ suc i = omega arith in rw (e.0) (h ∙ rw (next, e.1) (take-nil n))
  column_step x i n (some a) rest e h =
      let next : i + 1 ≡ suc i = omega arith in rw e (ap (◌∷◌ a) (h ∙ rw next refl))

  left_column-take :
      (n i half : ℕ) (x : List A) → left_column (show_rows n i half x) ≡ take n (drop i x)
  unfolding show_rows
  left_column-take zero i half x = refl
  left_column-take (suc n) i half x =
      column_step x i n (get_elem? x i) _ (get_elem?-Split x i) (left_column-take n (i + 1) half x)

  get_elem?-guard :
      (x : List A) (i : ℕ) → (if ltb i (length x) then get_elem? x i else none) ≡ get_elem? x i
  get_elem?-guard [] i = ground arith
  get_elem?-guard (a ∷ x) zero = ground arith
  get_elem?-guard (a ∷ x) (suc i) = ground (arith, get_elem?-guard x i)

  right_column-take :
      (n i j half : ℕ) (x : List A)
      → i + half ≡ j
      → right_column (show_rows n i half x) ≡ take n (drop j x)
  unfolding show_rows
  right_column-take zero i j half x e = refl
  right_column-take (suc n) i j half x e =
      rw (e, get_elem?-guard x j)
        (column_step x j n (get_elem? x j) _ (get_elem?-Split x j)
          (right_column-take n (i + 1) (j + 1) half x (omega arith)))

  take-all : (n : ℕ) (x : List A) → length x ≤ n → take n x ≡ x
  take-all zero [] h = refl
  take-all zero (a ∷ x) h = absurd (omega arith)
  take-all (suc n) [] h = refl
  take-all (suc n) (a ∷ x) h = ap (◌∷◌ a) (take-all n x (omega arith))

  -- Read down the left column and then down the right one, the menu that showmenu prints shows its
  -- entries, each once and in order.
  pub showmenu-columns : (x : List A) → left_column (showmenu x) ++ right_column (showmenu x) ≡ x
  unfolding showmenu
  showmenu-columns x =
      ap₂ ◌++◌ (left_column-take half 0 half x) (
        right_column-take half 0 half half x (omega arith)
        ∙ take-all half (drop half x) (omega (arith, length-drop half x)))
      ∙ take-append-drop half x
    where
      half : ℕ
      half = (length x + 1) / 2
