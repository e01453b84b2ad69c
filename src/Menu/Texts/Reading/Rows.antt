-- ===== src/Menu/Texts/Reading/Rows.antt =====
-- The rows of a menu as lines.
use cse4300_project.Prelude.{
  ℕ, zero, suc, ◌+◌, ◌≤◌, ◌<◌, ◌≡◌, refl, ap, ◌∙◌, arith, Bool, true, false, List, [], ◌∷◌, ◌++◌,
  map, Option, none, some, ltb, if◌then◌else◌, length, get_elem?, take, drop, append_assoc, ltb,
}
use cse4300_project.Menu.Words.{Word, codes, newline, IsLine}
use cse4300_project.Menu.Show.{Row, show_rows}
use cse4300_project.Menu.Texts.{entry_width, pad, entry, row_text, rows_text}
use cse4300_project.Menu.Texts.Reading.{lines, lines-append, IsEntry, AreEntries}

IsLine-append : (v w : Word) → IsLine v → IsLine w → IsLine (v ++ w)
IsLine-append [] w v-line w-line = w-line
IsLine-append (c ∷ v) w v-line w-line = (v-line.0, IsLine-append v w v-line.1 w-line)

pad-IsLine : (n : ℕ) (w : Word) → IsLine w → IsLine (pad n w)
unfolding pad
pad-IsLine zero w v = v
pad-IsLine (suc n) [] v = (refl, pad-IsLine n [] v)
pad-IsLine (suc n) (c ∷ w) v = (v.0, pad-IsLine n w v.1)

pub take-pad : (n : ℕ) (w rest : Word) → length w ≤ n → take n (pad n w ++ rest) ≡ pad n w
unfolding pad
take-pad zero [] rest h = refl
take-pad zero (c ∷ w) rest h = absurd (omega arith)
take-pad (suc n) [] rest h = ap (◌∷◌ b' ') (take-pad n [] rest (omega arith))
take-pad (suc n) (c ∷ w) rest h = ap (◌∷◌ c) (take-pad n w rest (omega arith))

pub drop-pad : (n : ℕ) (w rest : Word) → length w ≤ n → drop n (pad n w ++ rest) ≡ rest
unfolding pad
drop-pad zero [] rest h = refl
drop-pad zero (c ∷ w) rest h = absurd (omega arith)
drop-pad (suc n) [] rest h = drop-pad n [] rest (omega arith)
drop-pad (suc n) (c ∷ w) rest h = drop-pad n w rest (omega arith)

-- A row with an entry on the left.
abbrev pub IsLeft : Option Word → Type 0
IsLeft none = ⊥
IsLeft (some w) = IsEntry w

abbrev pub IsRight : Option Word → Type 0
IsRight none = Unit
IsRight (some w) = IsEntry w

abbrev pub IsRow : Row Word → Type 0
IsRow r = IsLeft r.left × IsRight r.right

abbrev pub AreRows : List (Row Word) → Type 0
AreRows [] = Unit
AreRows (r ∷ rs) = IsRow r × AreRows rs

entry-IsLine : (w : Word) → IsEntry w → IsLine w
entry-IsLine [] v = absurd v
entry-IsLine (c ∷ cs) v = v.0

pub entry-fits : (w : Word) → IsEntry w → length w ≤ entry_width
entry-fits [] v = absurd v
entry-fits (c ∷ cs) v = v.1

get_elem?-IsLeft : (x : List Word) (i : ℕ) → AreEntries x → i < length x → IsLeft (get_elem? x i)
get_elem?-IsLeft [] i v h = absurd (omega arith)
get_elem?-IsLeft (w ∷ x) zero v h = v.0
get_elem?-IsLeft (w ∷ x) (suc i) v h = get_elem?-IsLeft x i v.1 (omega arith)

get_elem?-IsRight : (x : List Word) (i : ℕ) → AreEntries x → IsRight (get_elem? x i)
get_elem?-IsRight [] i v = tt
get_elem?-IsRight (w ∷ x) zero v = v.0
get_elem?-IsRight (w ∷ x) (suc i) v = get_elem?-IsRight x i v.1

pub show_rows-AreRows :
    (n i half : ℕ) (x : List Word)
    → AreEntries x
    → i + n ≤ length x
    → AreRows (show_rows n i half x)
unfolding show_rows
show_rows-AreRows zero i half x v h = tt
show_rows-AreRows (suc n) i half x v h = (
  (get_elem?-IsLeft x i v (omega arith), guarded (ltb (i + half) (length x))),
  show_rows-AreRows n (i + 1) half x v (omega arith),
)
  where
    guarded : (b : Bool) → IsRight (if b then get_elem? x (i + half) else none)
    guarded true = get_elem?-IsRight x (i + half) v
    guarded false = tt

row_text-IsLine : (r : Row Word) → IsRow r → IsLine (row_text r)
unfolding row_text
row_text-IsLine r v =
    IsLine-append (codes "    ") (pad entry_width (entry r.left) ++ entry r.right) by_dots (
      IsLine-append (pad entry_width (entry r.left)) (entry r.right)
        (pad-IsLine entry_width (entry r.left) (left_line r.left v.0)) (right_line r.right v.1))
  where
    by_dots : IsLine (codes "    ")
    by_dots = ground arith

    left_line : (o : Option Word) → IsLeft o → IsLine (entry o)
    left_line none v = absurd v
    left_line (some w) v = entry-IsLine w v

    right_line : (o : Option Word) → IsRight o → IsLine (entry o)
    right_line none v = tt
    right_line (some w) v = entry-IsLine w v

rows_text-cons :
    (r : Row Word) (rs : List (Row Word)) (w : Word)
    → rows_text (r ∷ rs) ++ w ≡ row_text r ++ newline ∷ (rows_text rs ++ w)
unfolding rows_text
rows_text-cons r rs w = append_assoc (row_text r) (newline ∷ rows_text rs) w

rows_text-nil : (rest : Word) → lines (rows_text [] ++ newline ∷ rest) ≡ [] ∷ lines rest
unfolding rows_text lines
rows_text-nil rest = refl

pub rows_text-lines :
    (rs : List (Row Word)) (rest : Word)
    → AreRows rs
    → lines (rows_text rs ++ newline ∷ rest) ≡ map row_text rs ++ [] ∷ lines rest
rows_text-lines [] rest v = rows_text-nil rest
rows_text-lines (r ∷ rs) rest v =
    ap lines (rows_text-cons r rs (newline ∷ rest))
    ∙ lines-append (row_text r) _ (row_text-IsLine r v.0)
    ∙ ap (◌∷◌ (row_text r)) (rows_text-lines rs rest v.1)
