-- ===== src/Menu/Tables.antt =====
-- The commands that the menus of menu.c name.
use cse4300_project.Prelude.{
  map, Bool, true, false, List, [], ◌∷◌, Option, none, some, ◌≡◌, refl, sym, ap, ◌∙◌, append-nil,
  arith, ◌==◌, if◌then◌else◌,
}
use cse4300_project.Menu.Words.{
  Word, codes, IsLine, args_of, collect_words, strtok_r, skip, token, head_of, rest_of,
}
use cse4300_project.Menu.Texts.{
  Options, opsmenu, testmenu, mainmenu, showmenu_text, opsmenu_name, testmenu_name, mainmenu_name,
  testmenu_notes, opsmenu_text, testmenu_text, mainmenu_text, pad, entry_width,
}
use cse4300_project.Menu.Texts.Reading.{AreEntries, entries_of}
use cse4300_project.Menu.Texts.Reading.Columns.{showmenu_text-entries}
use cse4300_project.Menu.Commands.{Command, perform, shown}
use cse4300_project.Menu.Dispatch.{cmdtable, find_command, dispatch_words, cmd_dispatch}

-- What stands between the brackets.
abbrev up_to_bracket : Word → Word
up_to_bracket [] = []
up_to_bracket (c ∷ cs) = if c == b']' then [] else c ∷ up_to_bracket cs

abbrev pub key : Word → Word
key [] = []
key (c ∷ cs) = up_to_bracket cs

abbrev is_known : Option Command → Bool
is_known none = false
is_known (some c) = true

-- Every line of the menu shows the name of a command in the table.
abbrev pub AreCommands : Options → List Word → Type 0
AreCommands o [] = Unit
AreCommands o (line ∷ lines) =
    (is_known (find_command (key line) (cmdtable o)) ≡ true) × AreCommands o lines

-- The options as three variables, to check every case.
abbrev built_with : Bool → Bool → Bool → Options
built_with a b d = record { synchprobs = a; net = b; sfs = d }

abbrev Menus : (Options → List Word → Type 0) → Options → Type 0
Menus P o = P o opsmenu × P o (testmenu o) × P o (mainmenu o)

commands_at : (a b d : Bool) → Menus AreCommands (built_with a b d)
unfolding find_command
commands_at true true d = ground arith
commands_at true false d = ground arith
commands_at false true d = ground arith
commands_at false false d = ground arith

entries_at : (a b d : Bool) → Menus (λ o x. AreEntries x) (built_with a b d)
entries_at true true d = ground arith
entries_at true false d = ground arith
entries_at false true d = ground arith
entries_at false false d = ground arith

-- The command line prints a text that, read by columns, is the menu, and every line of the menu shows
-- the name of a command in the table.
abbrev pub ShowsMenu : Options → Word → List Word → Type 0
ShowsMenu o command menu =
    (text : Word) × (cmd_dispatch o command ≡ some (shown text))
    × (entries_of text ≡ map (pad entry_width) menu)
    × AreCommands o menu

entries_of-showmenu_text :
    (name : Word) (x : List Word)
    → IsLine name
    → AreEntries x
    → entries_of (showmenu_text name x) ≡ map (pad entry_width) x
entries_of-showmenu_text name x n v =
    ap entries_of (sym (append-nil (showmenu_text name x))) ∙ showmenu_text-entries name x [] n v

-- Whatever the options of the kernel, the commands ?o, ?t and ?, typed so, print a text from which
-- the menu of the operations, that of the tests and the main menu can be read back: the entries at
-- their places in the two columns are the menu's own, each once and in order, padded to the width
-- of a column; and every line of the menu shows between its brackets the name of a command that
-- the table holds.
pub menus-ShowsMenu :
    (o : Options)
    → ShowsMenu o (codes "?o") opsmenu
      × ShowsMenu o (codes "?t") (testmenu o)
      × ShowsMenu o (codes "?") (mainmenu o)
unfolding cmd_dispatch dispatch_words args_of collect_words strtok_r skip token head_of rest_of
    find_command perform
menus-ShowsMenu o =
    let (ops, tests, main) = commands_at o.synchprobs o.net o.sfs in
    let (ops', tests', main') = entries_at o.synchprobs o.net o.sfs in
    (
      (opsmenu_text, refl, entries_of-showmenu_text opsmenu_name opsmenu (ground arith) ops', ops),
      (
        testmenu_text o,
        refl,
        showmenu_text-entries testmenu_name (testmenu o) testmenu_notes (ground arith) tests',
        tests,
      ),
      (
        mainmenu_text o,
        refl,
        entries_of-showmenu_text mainmenu_name (mainmenu o) (ground arith) main',
        main,
      ),
    )
