-- ===== src/Menu/Splitting.antt =====
-- What the splitting of a command line gives.
use cse4300_project.Prelude.{
  ℕ, zero, suc, ◌+◌, ◌≤◌, ◌<◌, ◌≡◌, refl, ap, arith, Bool, true, false, inl, inr, Bool-cases, List,
  [], ◌∷◌, ◌++◌, Option, none, some, leb, length,
}
use cse4300_project.Menu.Words.{
  Word, skip, head_of, rest_of, token, strtok_r, is_blank, max_menu_args, Words, words, too_many,
  out_of_fuel, add_word, collect_words, args_of,
}

module _ (sep : ℕ → Bool) where
  -- No byte is a separator.
  abbrev pub IsFree : Word → Type 0
  IsFree [] = Unit
  IsFree (c ∷ cs) = (sep c ≡ false) × IsFree cs

  -- A non-empty word without separators.
  abbrev pub IsWord : Word → Type 0
  IsWord [] = ⊥
  IsWord (c ∷ cs) = (sep c ≡ false) × IsFree cs

  head_of-word : (w rest : Word) (s : ℕ) → IsFree w → sep s ≡ true → head_of sep (w ++ s ∷ rest) ≡ w
  unfolding head_of
  head_of-word [] rest s f h = rw h
  head_of-word (c ∷ w) rest s f h = rw f.0 (ap (◌∷◌ c) (head_of-word w rest s f.1 h))

  rest_of-word :
      (w rest : Word) (s : ℕ) → IsFree w → sep s ≡ true → rest_of sep (w ++ s ∷ rest) ≡ rest
  unfolding rest_of
  rest_of-word [] rest s f h = rw h
  rest_of-word (c ∷ w) rest s f h = rw f.0 (rest_of-word w rest s f.1 h)

  -- A word before a separator is the token, and the context goes on behind the separator.
  pub strtok_r-word :
      (w rest : Word) (s : ℕ)
      → IsWord w
      → sep s ≡ true
      → strtok_r sep (w ++ s ∷ rest) ≡ some (w, rest)
  unfolding strtok_r skip token
  strtok_r-word [] rest s f h = absurd f
  strtok_r-word (c ∷ w) rest s f h =
      rw f.0 (ground (arith, head_of-word (c ∷ w) rest s f h, rest_of-word (c ∷ w) rest s f h))

  head_of-IsFree : (context : Word) → IsFree (head_of sep context)
  unfolding head_of
  head_of-IsFree [] = tt
  head_of-IsFree (c ∷ cs) = ground (arith, head_of-IsFree cs)

  rest_of-length : (context : Word) → length (rest_of sep context) ≤ length context
  unfolding rest_of
  rest_of-length [] = omega arith
  rest_of-length (c ∷ cs) = ground (arith, rest_of-length cs)

  -- What a call returns: NULL, or a word and a shorter context.
  abbrev pub Tokens : Word → Option (Word × Word) → Type 0
  Tokens context none = Unit
  Tokens context (some (w, rest)) = IsWord w × (length rest < length context)

  Tokens-cons : (c : ℕ) (cs : Word) (o : Option (Word × Word)) → Tokens cs o → Tokens (c ∷ cs) o
  Tokens-cons c cs none t = tt
  Tokens-cons c cs (some (w, rest)) t = (t.0, omega arith)

  pub strtok_r-Tokens : (context : Word) → Tokens context (strtok_r sep context)
  unfolding strtok_r skip token head_of rest_of
  strtok_r-Tokens [] = tt
  strtok_r-Tokens (c ∷ cs) = elim (Bool-cases (sep c)) [
    | inl blank ↦ rw blank (Tokens-cons c cs (strtok_r sep cs) (strtok_r-Tokens cs))
    | inr word ↦ rw word (rw word ((word, head_of-IsFree cs), omega (arith, rest_of-length cs)))
  ]

abbrev pub AreWords : List Word → Type 0
AreWords [] = Unit
AreWords (w ∷ ws) = IsWord is_blank w × AreWords ws

-- What the loop may return, from `nargs` words on.
abbrev pub Collected : ℕ → Words → Type 0
Collected nargs (words ws) = AreWords ws × (nargs + length ws ≤ max_menu_args)
Collected nargs too_many = Unit
Collected nargs out_of_fuel = ⊥

Collected-add :
    (nargs : ℕ) (w : Word) (r : Words)
    → IsWord is_blank w
    → Collected (nargs + 1) r
    → Collected nargs (add_word w r)
Collected-add nargs w (words ws) v c = ((v, c.0), omega arith)
Collected-add nargs w too_many v c = tt
Collected-add nargs w out_of_fuel v c = c

collect_words-Collected :
    (fuel nargs : ℕ) (context : Word)
    → length context < fuel
    → nargs ≤ max_menu_args
    → Collected nargs (collect_words fuel nargs context)
unfolding collect_words
collect_words-Collected zero nargs context h few = absurd (omega arith)
collect_words-Collected (suc fuel) nargs context h few =
    step (collect_words-Collected fuel (nargs + 1)) (strtok_r is_blank context) refl
      (strtok_r-Tokens is_blank context)
  where
    step :
        ((rest : Word)
          → length rest < fuel
          → nargs + 1 ≤ max_menu_args
          → Collected (nargs + 1) (collect_words fuel (nargs + 1) rest))
        → (o : Option (Word × Word)) → strtok_r is_blank context ≡ o
        → Tokens is_blank context o
        → Collected nargs (collect_words (suc fuel) nargs context)
    step ih none e t = rw (e, collect_words) (tt, omega arith)
    step ih (some (w, rest)) e t = elim (Bool-cases (leb max_menu_args nargs)) [
      | inl full ↦ rw (e, collect_words) (rw full tt)
      | inr room ↦
          rw (e, collect_words)
            (rw room (
              Collected-add nargs w (collect_words fuel (nargs + 1) rest) t.0
                (ih rest (omega arith) (ground arith))))
    ]

-- The splitting of any line ends, with at most MAXMENUARGS words, each non-empty and without
-- blanks, or with the report that there are more.
pub args_of-Collected : (cmd : Word) → Collected 0 (args_of cmd)
unfolding args_of
args_of-Collected cmd = collect_words-Collected (suc (length cmd)) 0 cmd (omega arith) (omega arith)
