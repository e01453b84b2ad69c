-- ===== src/Menu/Lines.antt =====
-- Lines as they are typed: words with separators before, between and behind them.
use cse4300_project.Prelude.{
  ℕ, zero, suc, ◌+◌, ◌≤◌, ◌<◌, ◌≡◌, refl, ap, ◌∙◌, arith, Bool, true, false, inl, inr, Bool-cases,
  List, [], ◌∷◌, ◌++◌, none, some, leb, if◌then◌else◌, length,
}
use cse4300_project.Menu.Words.{
  Word, skip, head_of, rest_of, token, strtok_r, is_blank, max_menu_args, Words, words, too_many,
  add_word, collect_words, args_of,
}
use cse4300_project.Menu.Splitting.{IsFree, IsWord, strtok_r-word, strtok_r-Tokens, Tokens}

-- Each word with what stands before it, and what stands behind the last.
abbrev pub line_of : List (Word × Word) → Word → Word
line_of [] end = end
line_of ((gap, w) ∷ ws) end = gap ++ (w ++ line_of ws end)

abbrev pub words_in : List (Word × Word) → List Word
words_in [] = []
words_in ((gap, w) ∷ ws) = w ∷ words_in ws

-- The next word, if there is one, does not stand directly behind the one before.
abbrev pub IsApart : List (Word × Word) → Type 0
IsApart [] = Unit
IsApart (([], w) ∷ ws) = ⊥
IsApart ((s ∷ gap, w) ∷ ws) = Unit

-- What is left of a line behind the separator that ends the word before.
abbrev pub behead : List (Word × Word) → List (Word × Word)
behead [] = []
behead (([], w) ∷ ws) = ([], w) ∷ ws
behead ((s ∷ gap, w) ∷ ws) = (gap, w) ∷ ws

abbrev pub end_of : List (Word × Word) → Word → Word
end_of [] [] = []
end_of [] (s ∷ end) = end
end_of (w ∷ ws) end = end

pub words_in-behead : (ws : List (Word × Word)) → words_in (behead ws) ≡ words_in ws
words_in-behead [] = refl
words_in-behead (([], w) ∷ ws) = refl
words_in-behead ((s ∷ gap, w) ∷ ws) = refl

module _ (sep : ℕ → Bool) where
  abbrev pub AreSeparators : Word → Type 0
  AreSeparators [] = Unit
  AreSeparators (c ∷ cs) = (sep c ≡ true) × AreSeparators cs

  -- Separators stand around the words, one at least between two words.
  abbrev pub IsTyped : List (Word × Word) → Word → Type 0
  IsTyped [] end = AreSeparators end
  IsTyped ((gap, w) ∷ ws) end = AreSeparators gap × IsWord sep w × IsApart ws × IsTyped ws end

  strtok_r-gap :
      (gap rest : Word) → AreSeparators gap → strtok_r sep (gap ++ rest) ≡ strtok_r sep rest
  unfolding strtok_r skip
  strtok_r-gap [] rest v = refl
  strtok_r-gap (c ∷ gap) rest v = rw v.0 (strtok_r-gap gap rest v.1)

  pub strtok_r-end : (end : Word) → AreSeparators end → strtok_r sep end ≡ none
  unfolding strtok_r skip token
  strtok_r-end [] v = refl
  strtok_r-end (c ∷ end) v = rw v.0 (strtok_r-end end v.1)

  head_of-same : (w : Word) → IsFree sep w → head_of sep (w ++ []) ≡ w
  unfolding head_of
  head_of-same [] v = refl
  head_of-same (c ∷ w) v = rw v.0 (ap (◌∷◌ c) (head_of-same w v.1))

  rest_of-all : (w : Word) → IsFree sep w → rest_of sep (w ++ []) ≡ []
  unfolding rest_of
  rest_of-all [] v = refl
  rest_of-all (c ∷ w) v = rw v.0 (rest_of-all w v.1)

  strtok_r-last : (w : Word) → IsWord sep w → strtok_r sep (w ++ []) ≡ some (w, [])
  unfolding strtok_r skip token
  strtok_r-last [] v = absurd v
  strtok_r-last (c ∷ w) v = rw v.0 (ground (arith, head_of-same (c ∷ w) v, rest_of-all (c ∷ w) v))

  strtok_r-next :
      (w end : Word) (ws : List (Word × Word))
      → IsWord sep w
      → IsApart ws
      → IsTyped ws end
      → strtok_r sep (w ++ line_of ws end) ≡ some (w, line_of (behead ws) (end_of ws end))
  strtok_r-next w [] [] v apart t = strtok_r-last w v
  strtok_r-next w (s ∷ end) [] v apart t = strtok_r-word sep w end s v t.0
  strtok_r-next w end (([], w') ∷ ws) v apart t = absurd apart
  strtok_r-next w end ((s ∷ gap, w') ∷ ws) v apart t =
      strtok_r-word sep w (gap ++ (w' ++ line_of ws end)) s v t.0.0

  pub strtok_r-line_of :
      (gap w end : Word) (ws : List (Word × Word))
      → IsTyped ((gap, w) ∷ ws) end
      → strtok_r sep (line_of ((gap, w) ∷ ws) end) ≡ some (w, line_of (behead ws) (end_of ws end))
  strtok_r-line_of gap w end ws (before, v, apart, t) =
      strtok_r-gap gap (w ++ line_of ws end) before ∙ strtok_r-next w end ws v apart t

  pub IsTyped-behead :
      (end : Word) (ws : List (Word × Word)) → IsTyped ws end → IsTyped (behead ws) (end_of ws end)
  IsTyped-behead [] [] t = tt
  IsTyped-behead (s ∷ end) [] t = t.1
  IsTyped-behead end (([], w) ∷ ws) t = t
  IsTyped-behead end ((s ∷ gap, w) ∷ ws) (before, v, apart, t) = (before.1, v, apart, t)

  -- The rest of a line is shorter than the line.
  pub length-behead :
      (gap w end : Word) (ws : List (Word × Word))
      → IsTyped ((gap, w) ∷ ws) end
      → length (line_of (behead ws) (end_of ws end)) < length (line_of ((gap, w) ∷ ws) end)
  length-behead gap w end ws t =
      let line = line_of ((gap, w) ∷ ws) end in
      let some_tokens : Tokens sep line (strtok_r sep line) = strtok_r-Tokens sep line in
      (rw (strtok_r-line_of gap w end ws t) at some_tokens).1

abbrev pub expected : ℕ → List Word → Words
expected nargs ws = if leb (nargs + length ws) max_menu_args then words ws else too_many

expected-add :
    (nargs : ℕ) (w : Word) (ws : List Word)
    → nargs < max_menu_args
    → add_word w (expected (nargs + 1) ws) ≡ expected nargs (w ∷ ws)
expected-add nargs w ws h = elim (Bool-cases (leb (nargs + 1 + length ws) max_menu_args)) [
  | inl fits ↦
      let fits' : leb (nargs + suc (length ws)) max_menu_args ≡ true = ground arith in
      rw (fits, fits')
  | inr full ↦
      let full' : leb (nargs + suc (length ws)) max_menu_args ≡ false = ground arith in
      rw (full, full')
]

collect_words-line_of :
    (fuel nargs : ℕ) (ws : List (Word × Word)) (end : Word)
    → IsTyped is_blank ws end
    → length (line_of ws end) < fuel
    → nargs ≤ max_menu_args
    → collect_words fuel nargs (line_of ws end) ≡ expected nargs (words_in ws)
unfolding collect_words
collect_words-line_of zero nargs ws end v h few = absurd (omega arith)
collect_words-line_of (suc fuel) nargs [] end v h few =
    let fits : leb (nargs + 0) max_menu_args ≡ true = ground arith in
    rw (strtok_r-end is_blank end v, collect_words) (rw fits refl)
collect_words-line_of (suc fuel) nargs ((gap, w) ∷ ws) end v h few =
    let first = strtok_r-line_of is_blank gap w end ws v in
    elim (Bool-cases (leb max_menu_args nargs)) [
      | inl full ↦
          let over : leb (nargs + suc (length (words_in ws))) max_menu_args ≡ false =
            ground arith in
          rw (first, collect_words) (rw (full, over) refl)
      | inr room ↦
          rw (first, collect_words)
            (rw room (
              ap (add_word w) (
                collect_words-line_of fuel (nargs + 1) (behead ws) (end_of ws end)
                  (IsTyped-behead is_blank end ws v.3)
                  (omega (arith, length-behead is_blank gap w end ws v)) (ground arith)
                ∙ ap (expected (nargs + 1)) (words_in-behead ws))
              ∙ expected-add nargs w (words_in ws) (ground arith)))
    ]

-- A typed line is split into its words, if there are at most MAXMENUARGS of them; a line of more
-- words is reported.
pub args_of-line_of :
    (ws : List (Word × Word)) (end : Word)
    → IsTyped is_blank ws end
    → args_of (line_of ws end) ≡ expected 0 (words_in ws)
unfolding args_of
args_of-line_of ws end v =
    collect_words-line_of (suc (length (line_of ws end))) 0 ws end v (omega arith) (omega arith)
