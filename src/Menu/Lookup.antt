-- ===== src/Menu/Lookup.antt =====
-- What the dispatcher does with the words of a line.
use cse4300_project.Prelude.{
  ℕ, ◌+◌, ◌≡◌, ◌⊎◌, ◌&&◌, sym, refl, ap, ◌∙◌, arith, Bool, true, false, inl, inr, Bool-cases, List,
  [], ◌∷◌, ◌++◌, Option, none, some, leb, ◌==◌, if◌then◌else◌, length,
}
use cse4300_project.Thread.Join.{einval, e2big}
use cse4300_project.Menu.Words.{
  Word, same_word, is_blank, args_of, words, too_many, out_of_fuel, Words, max_menu_args,
}
use cse4300_project.Menu.Splitting.{IsWord, AreWords, Collected, args_of-Collected}
use cse4300_project.Menu.Lines.{line_of, words_in, IsTyped, expected, args_of-line_of}
use cse4300_project.Menu.Commands.{
  Command, Reply, code, vfs_unmount, perform, strip_colon, on_device, mount_loop, mounttable,
  cmd_mount, cmd_unmount, cmd_bootfs,
}
use cse4300_project.Menu.Texts.{Options}
use cse4300_project.Menu.Dispatch.{cmdtable, is_named, find_command, dispatch_words, cmd_dispatch}

-- What stands before the last byte passes through.
strip_cons :
    (a : ℕ) (w : Word) (c : ℕ) (r : Word)
    → strip_colon (w ++ c ∷ []) ≡ some r
    → strip_colon (a ∷ w ++ c ∷ []) ≡ some (a ∷ r)
unfolding strip_colon
strip_cons a [] c r e = ap (λ o. elim o [ none ↦ none | some w ↦ some (a ∷ w) ]) e
strip_cons a (b ∷ w) c r e = ap (λ o. elim o [ none ↦ none | some w ↦ some (a ∷ w) ]) e

-- A device name that ends in a colon loses that one colon, and any other non-empty name stays as
-- it is.
pub strip_colon-append :
    (w : Word) (c : ℕ) → strip_colon (w ++ c ∷ []) ≡ some (if c == b':' then w else w ++ c ∷ [])
unfolding strip_colon
strip_colon-append [] c = refl
strip_colon-append (a ∷ w) c = elim (Bool-cases (c == b':')) [
  | inl colon ↦ rw colon (strip_cons a w c w (strip_colon-append w c ∙ rw colon refl))
  | inr plain ↦ rw plain (strip_cons a w c (w ++ c ∷ []) (strip_colon-append w c ∙ rw plain refl))
]

-- A non-empty word can be stripped.
strip_colon-ne-none : (c : ℕ) (cs : Word) → (w : Word) × (strip_colon (c ∷ cs) ≡ some w)
unfolding strip_colon
strip_colon-ne-none c [] = ((if c == b':' then [] else c ∷ []), refl)
strip_colon-ne-none c (d ∷ ds) = let (w, e) = strip_colon-ne-none d ds in (c ∷ w, rw e refl)

on_device-some :
    (w : Word) (k : Word → Reply) → IsWord is_blank w → (r : Reply) × (on_device w k ≡ some r)
on_device-some [] k v = absurd v
on_device-some (c ∷ cs) k v = let (d, e) = strip_colon-ne-none c cs in (k d, rw (e, on_device) refl)

-- Every command, given words, comes to a reply.
perform-some :
    (o : Options) (c : Command) (ws : List Word)
    → AreWords ws
    → (r : Reply) × (perform o c ws ≡ some r)
unfolding perform
perform-some o cmd_mount (m ∷ f ∷ d ∷ []) v =
    on_device-some d (mount_loop (mounttable o.sfs) f) v.1.1.0
perform-some o cmd_unmount (u ∷ d ∷ []) v = on_device-some d vfs_unmount v.1.0
perform-some o cmd_bootfs (b ∷ d ∷ []) v = on_device-some d Reply.vfs_setbootfs v.1.0
perform-some o _ _ v = (_, refl)

dispatch_words-some :
    (o : Options) (r : Words) → Collected 0 r → (reply : Reply) × (dispatch_words o r ≡ some reply)
unfolding dispatch_words
dispatch_words-some o out_of_fuel c = absurd c
dispatch_words-some o too_many c = (code e2big, refl)
dispatch_words-some o (words []) c = (code 0, refl)
dispatch_words-some o (words (w ∷ ws)) c = found (find_command w (cmdtable o)) refl
  where
    found :
        (f : Option Command)
        → find_command w (cmdtable o) ≡ f
        → (reply : Reply) × (dispatch_words o (words (w ∷ ws)) ≡ some reply)
    found none e = (code einval, rw (e, dispatch_words) refl)
    found (some k) e =
        let (reply, done) = perform-some o k (w ∷ ws) c.0 in (reply, rw (e, dispatch_words) done)

-- Whatever line is typed, its splitting ends and the command comes to a reply: no command reads an
-- argument that is not there or looks before the start of a device name.
pub cmd_dispatch-some :
    (o : Options) (cmd : Word) → (reply : Reply) × (cmd_dispatch o cmd ≡ some reply)
unfolding cmd_dispatch
cmd_dispatch-some o cmd = dispatch_words-some o (args_of cmd) (args_of-Collected cmd)

-- Every entry of a table is found under its name.
abbrev pub AllFound : List (Word × Command) → List (Word × Command) → Type 0
AllFound table [] = Unit
AllFound table ((name, c) ∷ rest) = (find_command name table ≡ some c) × AllFound table rest

at_options :
    (a b d : Bool)
    → (let o : Options = record { synchprobs = a; net = b; sfs = d } in
        AllFound (cmdtable o) (cmdtable o))
unfolding find_command
at_options true true d = ground arith
at_options true false d = ground arith
at_options false true d = ground arith
at_options false false d = ground arith

-- No name of the command table hides another: whatever the options, every entry is found under its
-- name.
pub cmdtable-AllFound : (o : Options) → AllFound (cmdtable o) (cmdtable o)
cmdtable-AllFound o = at_options o.synchprobs o.net o.sfs

-- The command stands in the table under the name.
abbrev pub IsListed : Word → Command → List (Word × Command) → Type 0
IsListed name c [] = ⊥
IsListed name c ((n, d) ∷ table) = ((n ≡ name) × (d ≡ c)) ⊎ IsListed name c table

AllFound-IsListed :
    (table t : List (Word × Command)) (name : Word) (c : Command)
    → AllFound table t
    → IsListed name c t
    → find_command name table ≡ some c
AllFound-IsListed table [] name c v i = absurd i
AllFound-IsListed table ((n, d) ∷ t) name c v (inl (e, f)) = rw (← e, ← f) (v.0)
AllFound-IsListed table ((n, d) ∷ t) name c v (inr i) = AllFound-IsListed table t name c v.1 i

same_word-eq : (v w : Word) → same_word v w ≡ true → v ≡ w
same_word-eq [] [] e = refl
same_word-eq [] (b ∷ w) e = absurd (ground (arith, e))
same_word-eq (a ∷ v) [] e = absurd (ground (arith, e))
same_word-eq (a ∷ v) (b ∷ w) e =
    let rest : v ≡ w = same_word-eq v w (ground (arith, e)) in
    let first : a ≡ b = ground (arith, e) in rw (first, rest) refl

find_command-IsListed :
    (name : Word) (c : Command) (t : List (Word × Command))
    → find_command name t ≡ some c
    → IsListed name c t
unfolding find_command
find_command-IsListed name c [] e = absurd (none_some e)
  where
    none_some : ◌≡◌ {A = Option Command} none (some c) → ⊥
    none_some x = cc
find_command-IsListed name c ((n, d) ∷ t) e = elim (Bool-cases (is_named n && same_word name n)) [
  | inl hit ↦ inl (sym (same_word-eq name n (ground (arith, hit))), some_same (rw hit at e))
  | inr miss ↦ inr (find_command-IsListed name c t (rw miss at e))
]
  where
    some_same : ◌≡◌ {A = Option Command} (some d) (some c) → d ≡ c
    some_same x = cc

abbrev if_few : List Word → Option Reply → Option Reply
if_few ws reply = if leb (length ws) max_menu_args then reply else some (code e2big)

-- What a line of these words comes to: more than MAXMENUARGS give E2BIG, a name in the command
-- table has its command called with all words, and any other gives EINVAL.
abbrev pub Answers : Options → Word → List Word → Option Reply → Type 0
Answers o name args reply =
    ((c : Command) × IsListed name c (cmdtable o)
      × (reply ≡ if_few (name ∷ args) (perform o c (name ∷ args))))
    ⊎ (((c : Command) → ¬ IsListed name c (cmdtable o))
        × (reply ≡ if_few (name ∷ args) (some (code einval))))

dispatch_words-expected :
    (o : Options) (ws : List Word)
    → dispatch_words o (expected 0 ws) ≡ if_few ws (dispatch_words o (words ws))
unfolding dispatch_words
dispatch_words-expected o ws = elim (Bool-cases (leb (length ws) max_menu_args)) [
  | inl fits ↦
      let fits' : leb (0 + length ws) max_menu_args ≡ true = ground arith in rw (fits, fits') refl
  | inr over ↦
      let over' : leb (0 + length ws) max_menu_args ≡ false = ground arith in rw (over, over') refl
]

words-Answers :
    (o : Options) (name : Word) (args : List Word) (f : Option Command)
    → find_command name (cmdtable o) ≡ f
    → Answers o name args (if_few (name ∷ args) (dispatch_words o (words (name ∷ args))))
unfolding dispatch_words
words-Answers o name args none e = inr (
  λ c i.
      none_some c
        (sym e ∙ AllFound-IsListed (cmdtable o) (cmdtable o) name c (cmdtable-AllFound o) i),
  ap (if_few (name ∷ args)) (rw (e, dispatch_words) refl),
)
  where
    none_some : (c : Command) → ◌≡◌ {A = Option Command} none (some c) → ⊥
    none_some c x = cc
words-Answers o name args (some c) e = inl (
  c,
  find_command-IsListed name c (cmdtable o) e,
  ap (if_few (name ∷ args)) (rw (e, dispatch_words) refl),
)

-- A line that is typed with spaces or tabs before, between and behind its words, as many as one
-- likes but at least one between two words, comes to E2BIG if it has more than MAXMENUARGS words;
-- otherwise, where the first word is a name of the command table, its command is called with all
-- words of the line, and where it is none, the result is EINVAL. Condition: the line has a word.
pub cmd_dispatch-line_of :
    (o : Options) (ws : List (Word × Word)) (end name : Word) (args : List Word)
    → IsTyped is_blank ws end
    → words_in ws ≡ name ∷ args
    → Answers o name args (cmd_dispatch o (line_of ws end))
unfolding cmd_dispatch
cmd_dispatch-line_of o ws end name args v e =
    let split : args_of (line_of ws end) ≡ expected 0 (name ∷ args) =
      args_of-line_of ws end v ∙ ap (expected 0) e in
    rw (ap (dispatch_words o) split ∙ dispatch_words-expected o (name ∷ args))
      (words-Answers o name args (find_command name (cmdtable o)) refl)
