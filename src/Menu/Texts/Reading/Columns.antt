-- ===== src/Menu/Texts/Reading/Columns.antt =====
-- A printed menu shows its entries.
use cse4300_project.Prelude.{
  ◌+◌, ◌≤◌, ◌≡◌, refl, sym, ap, ◌∙◌, arith, List, [], ◌∷◌, ◌++◌, map, Option, none, some, length,
  append_assoc, ◌/◌, append_assoc,
}
use cse4300_project.Menu.Words.{Word, newline, IsLine}
use cse4300_project.Menu.Show.{Row, showmenu, left_column, right_column, showmenu-columns}
use cse4300_project.Menu.Texts.{entry_width, pad, entry, row_text, rows_text, showmenu_text}
use mathlib.Core.Path.{ap₂}
use cse4300_project.Menu.Texts.Reading.{
  lines, lines-append, IsEntry, AreEntries, left_of, right_of, keep, rights, body, up_to_empty,
  entries_of,
}
use cse4300_project.Menu.Texts.Reading.Rows.{
  take-pad, drop-pad, entry-fits, IsLeft, IsRight, IsRow, AreRows, show_rows-AreRows,
  rows_text-lines,
}

-- Reading one row.
left_of-row_text :
    (r : Row Word) (w : Word)
    → r.left ≡ some w
    → IsEntry w
    → left_of (row_text r) ≡ pad entry_width w
unfolding row_text
left_of-row_text r w e v = rw e (take-pad entry_width w (entry r.right) (entry-fits w v))

right_of-row_text : (r : Row Word) → IsRow r → right_of (row_text r) ≡ entry r.right
unfolding row_text
right_of-row_text r v = drop-pad entry_width (entry r.left) (entry r.right) (fits r.left v.0)
  where
    fits : (o : Option Word) → IsLeft o → length (entry o) ≤ entry_width
    fits none v = absurd v
    fits (some w) v = entry-fits w v

map-left_of :
    (rs : List (Row Word))
    → AreRows rs
    → map left_of (map row_text rs) ≡ map (pad entry_width) (left_column rs)
map-left_of [] v = refl
map-left_of (r ∷ rs) v = by_left r.left refl v.0.0 (map-left_of rs v.1)
  where
    by_left :
        (o : Option Word)
        → r.left ≡ o
        → IsLeft o
        → map left_of (map row_text rs) ≡ map (pad entry_width) (left_column rs)
        → left_of (row_text r) ∷ map left_of (map row_text rs)
          ≡ map (pad entry_width) (elim o [ none ↦ left_column rs | some a ↦ a ∷ left_column rs ])
    by_left none e l ih = absurd l
    by_left (some w) e l ih = ap₂ ◌∷◌ (left_of-row_text r w e l) ih

rights-map :
    (rs : List (Row Word))
    → AreRows rs
    → rights (map row_text rs) ≡ map (pad entry_width) (right_column rs)
rights-map [] v = refl
rights-map (r ∷ rs) v =
    ap (λ w. keep w (rights (map row_text rs))) (right_of-row_text r v.0)
    ∙ by_right r.right v.0.1 (rights-map rs v.1)
  where
    by_right :
        (o : Option Word)
        → IsRight o
        → rights (map row_text rs) ≡ map (pad entry_width) (right_column rs)
        → keep (entry o) (rights (map row_text rs))
          ≡ map (pad entry_width) (elim o [ none ↦ right_column rs | some a ↦ a ∷ right_column rs ])
    by_right none l ih = ih
    by_right (some []) l ih = absurd l
    by_right (some (c ∷ w)) l ih = ap (◌∷◌ (pad entry_width (c ∷ w))) ih

-- A row is not empty, so that the rows end at the empty line.
up_to_empty-rows :
    (rs : List (Row Word)) (ls : List Word)
    → up_to_empty (map row_text rs ++ [] ∷ ls) ≡ map row_text rs
unfolding row_text
up_to_empty-rows [] ls = refl
up_to_empty-rows (r ∷ rs) ls = ap (◌∷◌ (row_text r)) (up_to_empty-rows rs ls)

showmenu-AreRows : (x : List Word) → AreEntries x → AreRows (showmenu x)
unfolding showmenu
showmenu-AreRows x v =
    show_rows-AreRows ((length x + 1) / 2) 0 ((length x + 1) / 2) x v (omega arith)

showmenu_text-append :
    (name : Word) (x : List Word) (rest : Word)
    → showmenu_text name x ++ rest
      ≡ newline ∷ (name ++ newline ∷ (rows_text (showmenu x) ++ newline ∷ rest))
unfolding showmenu_text
showmenu_text-append name x rest = ap (◌∷◌ newline) (
    append_assoc name (newline ∷ (rows_text (showmenu x) ++ newline ∷ [])) rest
    ∙ ap (λ w. name ++ newline ∷ w) (append_assoc (rows_text (showmenu x)) (newline ∷ []) rest))

showmenu_text-lines :
    (name : Word) (x : List Word) (rest : Word)
    → IsLine name
    → AreEntries x
    → lines (showmenu_text name x ++ rest)
      ≡ [] ∷ name ∷ (map row_text (showmenu x) ++ [] ∷ lines rest)
showmenu_text-lines name x rest n v =
    ap lines (showmenu_text-append name x rest)
    ∙ lines-append [] (name ++ newline ∷ (rows_text (showmenu x) ++ newline ∷ rest)) tt
    ∙ ap (◌∷◌ []) (
        lines-append name (rows_text (showmenu x) ++ newline ∷ rest) n
        ∙ ap (◌∷◌ name) (rows_text-lines (showmenu x) rest (showmenu-AreRows x v)))

map-append : {A B : Type 0} (f : A → B) (xs ys : List A) → map f (xs ++ ys) ≡ map f xs ++ map f ys
map-append f [] ys = refl
map-append f (x ∷ xs) ys = ap (◌∷◌ (f x)) (map-append f xs ys)

-- Whatever is printed behind it, the text of showmenu, read line by line and the left column
-- before the right one, shows the entries of the menu, each once and in order, padded to the width
-- of a column. Conditions: the name of the menu has no newline, and each entry has none, is not
-- empty and fits its column.
pub showmenu_text-entries :
    (name : Word) (x : List Word) (rest : Word)
    → IsLine name
    → AreEntries x
    → entries_of (showmenu_text name x ++ rest) ≡ map (pad entry_width) x
unfolding entries_of
showmenu_text-entries name x rest n v =
    ap (λ rows. map left_of rows ++ rights rows) rows
    ∙ ap₂ ◌++◌ (map-left_of (showmenu x) ok) (rights-map (showmenu x) ok)
    ∙ sym (map-append (pad entry_width) (left_column (showmenu x)) (right_column (showmenu x)))
    ∙ ap (map (pad entry_width)) (showmenu-columns x)
  where
    ok : AreRows (showmenu x)
    ok = showmenu-AreRows x v

    rows : body (lines (showmenu_text name x ++ rest)) ≡ map row_text (showmenu x)
    rows =
        ap body (showmenu_text-lines name x rest n v) ∙ up_to_empty-rows (showmenu x) (lines rest)
