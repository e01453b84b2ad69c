-- ===== src/Menu/Texts/Reading.antt =====
-- Reading a printed menu: the lines, and the entries at their places.
pub mod Rows
pub mod Columns
use cse4300_project.Prelude.{
  ℕ, zero, suc, ◌+◌, ◌-◌, ◌≤◌, ◌<◌, ◌≡◌, refl, sym, ap, ◌∙◌, arith, Bool, true, false, not, ◌&&◌,
  inl, inr, Bool-cases, List, [], ◌∷◌, ◌++◌, map, Option, none, some, ltb, ◌==◌, if◌then◌else◌,
  length, get_elem?, take, drop, append_assoc, ltb,
}
use cse4300_project.Menu.Words.{Word, codes, newline, IsLine}
use cse4300_project.Menu.Show.{
  Row, showmenu, show_rows, left_column, right_column, showmenu-columns,
}
use cse4300_project.Menu.Texts.{entry_width, pad, entry, row_text, rows_text, showmenu_text}

-- The lines of a text. What stands behind the last newline is one more line.
abbrev push : ℕ → List Word → List Word
push c [] = (c ∷ []) ∷ []
push c (l ∷ ls) = (c ∷ l) ∷ ls

unfoldable pub lines : Word → List Word
lines [] = []
lines (c ∷ cs) = let rest = lines cs in if c == newline then [] ∷ rest else push c rest

pub lines-append : (l rest : Word) → IsLine l → lines (l ++ newline ∷ rest) ≡ l ∷ lines rest
unfolding lines
lines-append [] rest v = refl
lines-append (c ∷ l) rest v = rw (v.0, lines-append l rest v.1) refl

-- The entry of a menu: one line, not empty, and not longer than its column.
abbrev pub IsEntry : Word → Type 0
IsEntry [] = ⊥
IsEntry (c ∷ cs) = IsLine (c ∷ cs) × (length (c ∷ cs) ≤ entry_width)

abbrev pub AreEntries : List Word → Type 0
AreEntries [] = Unit
AreEntries (w ∷ ws) = IsEntry w × AreEntries ws

-- What stands in the columns of the lines.
abbrev pub left_of : Word → Word
left_of line = take entry_width (drop 4 line)

abbrev pub right_of : Word → Word
right_of line = drop entry_width (drop 4 line)

abbrev pub keep : Word → List Word → List Word
keep [] ws = ws
keep (c ∷ cs) ws = pad entry_width (c ∷ cs) ∷ ws

abbrev pub rights : List Word → List Word
rights [] = []
rights (l ∷ ls) = keep (right_of l) (rights ls)

abbrev pub up_to_empty : List Word → List Word
up_to_empty [] = []
up_to_empty ([] ∷ ls) = []
up_to_empty ((c ∷ l) ∷ ls) = (c ∷ l) ∷ up_to_empty ls

-- Between the empty line and the title at the top and the next empty line.
abbrev pub body : List Word → List Word
body ls = up_to_empty (drop 2 ls)

unfoldable pub entries_of : Word → List Word
unfolding lines pad
entries_of text = let rows = body (lines text) in map left_of rows ++ rights rows
