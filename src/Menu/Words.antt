-- ===== src/Menu/Words.antt =====
-- strtok_r, as menu.c uses it, and the loops that call it until it returns NULL.
use cse4300_project.Prelude.{
  ℕ, ◌≡◌, zero, suc, ◌+◌, Bool, true, false, ◌&&◌, ◌||◌, List, [], ◌∷◌, Option, none, some, leb,
  ◌==◌, if◌then◌else◌, length,
}
use Prim.Native.Char.{code}
use Prim.Native.String.{String}

abbrev pub Word : Type 0
Word = List ℕ

abbrev pub codes : String → Word
codes String.[] = []
codes (String.◌∷◌ c s) = code c ∷ codes s

abbrev pub same_word : Word → Word → Bool
same_word [] [] = true
same_word (a ∷ xs) (b ∷ ys) = a == b && same_word xs ys
same_word _ _ = false

abbrev pub newline : ℕ
newline = 10

-- A text without a newline.
abbrev pub IsLine : Word → Type 0
IsLine [] = Unit
IsLine (c ∷ cs) = ((c == newline) ≡ false) × IsLine cs

-- Leading separators.
unfoldable pub skip : (ℕ → Bool) → Word → Word
skip sep [] = []
skip sep (c ∷ cs) = if sep c then skip sep cs else c ∷ cs

-- Up to the first separator.
unfoldable pub head_of : (ℕ → Bool) → Word → Word
head_of sep [] = []
head_of sep (c ∷ cs) = if sep c then [] else c ∷ head_of sep cs

-- What stands after the first separator, which strtok_r overwrites.
unfoldable pub rest_of : (ℕ → Bool) → Word → Word
rest_of sep [] = []
rest_of sep (c ∷ cs) = if sep c then cs else rest_of sep cs

unfoldable pub token : (ℕ → Bool) → Word → Option (Word × Word)
unfolding head_of rest_of
token sep [] = none
token sep (c ∷ cs) = some (head_of sep (c ∷ cs), rest_of sep (c ∷ cs))

-- One call: the token and the context for the next call, or NULL.
unfoldable pub strtok_r : (ℕ → Bool) → Word → Option (Word × Word)
unfolding skip token
strtok_r sep context = token sep (skip sep context)

-- " \t" and ";"
abbrev pub is_blank : ℕ → Bool
is_blank c = c == b' ' || c == 9

abbrev pub is_semicolon : ℕ → Bool
is_semicolon c = c == b';'

-- MAXMENUARGS
abbrev pub max_menu_args : ℕ
max_menu_args = 16

pub data Words : Type 0 where
  words : List Word → Words
  too_many : Words
  out_of_fuel : Words

abbrev pub add_word : Word → Words → Words
add_word w (words ws) = words (w ∷ ws)
add_word w too_many = too_many
add_word w out_of_fuel = out_of_fuel

-- The loop of cmd_dispatch. Each round takes at least one byte: the length and one more are enough.
unfoldable pub collect_words : ℕ → ℕ → Word → Words
unfolding strtok_r
collect_words zero nargs context = out_of_fuel
collect_words (suc fuel) nargs context = elim (strtok_r is_blank context) [
  | none ↦ words []
  | some (w, rest) ↦ elim (leb max_menu_args nargs) [
    | true ↦ too_many
    | false ↦ add_word w (collect_words fuel (nargs + 1) rest)
  ]
]

unfoldable pub args_of : Word → Words
unfolding collect_words
args_of cmd = collect_words (suc (length cmd)) 0 cmd
