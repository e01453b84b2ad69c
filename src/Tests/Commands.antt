-- ===== src/Tests/Commands.antt =====
-- The menu's routines on concrete lines.
use cse4300_project.Prelude.{ℕ, ◌+◌, ◌≡◌, refl, arith, true, false, List, [], ◌∷◌, some}
use cse4300_project.Menu.Words.{Word, codes}
use cse4300_project.Menu.Lines.{line_of, words_in}
use cse4300_project.Menu.Commands.{Reply, code, panic_call, quit_call}
use cse4300_project.Menu.Texts.{Options, opsmenu, testmenu, mainmenu}
use cse4300_project.Menu.Tables.{ShowsMenu, menus-ShowsMenu}
use cse4300_project.Menu.Dispatch.{cmd_dispatch}
use cse4300_project.Menu.Execute.{
  Carried, done, halted, menu_execute, Executes, menu_execute-Executes,
}
use cse4300_project.Menu.Session.{prompts, Orderly, prompts-Orderly}
use cse4300_project.Menu.Lookup.{cmd_dispatch-some, Answers, cmd_dispatch-line_of}

abbrev pub options : Options
options = record { synchprobs = true; net = false; sfs = true }

menus-ShowsMenu_example :
    ShowsMenu options (codes "?o") opsmenu
    × ShowsMenu options (codes "?t") (testmenu options)
    × ShowsMenu options (codes "?") (mainmenu options)
menus-ShowsMenu_example = menus-ShowsMenu options

-- Each reply is counted, and a code other than 0 fails.
abbrev count_replies : Reply → ℕ → Carried ℕ
count_replies (code c) n = done c (n + 1)
count_replies panic_call n = halted n
count_replies quit_call n = halted n
count_replies r n = done 0 (n + 1)

-- "cd a;; sync"
abbrev two_commands : List (Word × Word)
two_commands = ([], codes "cd a") ∷ (codes ";;", codes " sync") ∷ []

menu_execute-Executes_example :
    Executes options count_replies true
      (words_in two_commands)
      0
      (menu_execute options count_replies true (line_of two_commands []) 0)
menu_execute-Executes_example =
    menu_execute-Executes options count_replies true two_commands [] 0 (ground arith)

cmd_dispatch-some_example :
    (reply : Reply) × (cmd_dispatch options (codes "mount sfs") ≡ some reply)
cmd_dispatch-some_example = cmd_dispatch-some options (codes "mount sfs")

-- " cd  lhd0:"
abbrev change_directory : List (Word × Word)
change_directory = (codes " ", codes "cd") ∷ (codes "  ", codes "lhd0:") ∷ []

cmd_dispatch-line_of_example :
    Answers options
      (codes "cd")
      (codes "lhd0:" ∷ [])
      (cmd_dispatch options (line_of change_directory []))
cmd_dispatch-line_of_example =
    cmd_dispatch-line_of options change_directory [] (codes "cd") (codes "lhd0:" ∷ [])
      (ground arith) refl

prompts-Orderly_example :
    Orderly options count_replies
      (prompts options count_replies (codes "cd a; sync" ∷ codes "nonsense" ∷ []) 0)
prompts-Orderly_example =
    prompts-Orderly options count_replies (codes "cd a; sync" ∷ codes "nonsense" ∷ []) 0
